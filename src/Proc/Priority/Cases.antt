-- ===== src/Proc/Priority/Cases.antt =====
-- setpriority on each of its paths.
use cs.Prelude.{
  ℕ, ◌+◌, ◌*◌, ◌≤◌, ◌≡◌, refl, ◌≢◌, ◌⊎◌, inl, inr, true, false, [], ◌∷◌, arith, ◌==◌, ==_ne, ==_iff,
  ltb, Bool-cases,
}
use cs.Prelude.Int.{ℤ, pos, negsuc}
use cs.Prelude.Finite.{has}
use cs.Prelude.Run.{fault, Yields, yields, Yields-mono}
use cs.Proc.Table.{
  Ptr, null, maxprio, initial_budget, Proc, ListName, ready, free_list, zombie_list, embryo_list,
  sleep_list, running_list, Kern, put,
}
use cs.Proc.Table.Lock.{IsFree, IsHeld, taken, given_back, acquire-ok, release-ok, taken-IsHeld}
use cs.Proc.Lists.{home, home_of}
use cs.Proc.Lists.Members.{Members}
use cs.Proc.Lists.Moves.{Inv}
use cs.Proc.Lists.Updates.{Inv-Entry, Inv-same, assign-ok}
use cs.Proc.Lists.Change.{on-ne_null, home_on, ready_home}
use cs.Proc.Scan.{ready_lists}
use cs.Proc.Scan.First.{AllOf, first_in, scan_lists-first, first_in-among}
use cs.Proc.Kill.{has_pid}
use cs.Proc.Priority.{to_change, full_budget, set_other, set_found, setpriority}
use cs.Proc.Priority.Set.{Reprioritized, set_ready-Reprioritized, set_ready_fault, ready_AllLists}

abbrev IsReady : ListName → Type 0
IsReady (ready i) = Unit {0}
IsReady free_list = ⊥
IsReady sleep_list = ⊥
IsReady zombie_list = ⊥
IsReady running_list = ⊥
IsReady embryo_list = ⊥

AllOf-ready_lists : AllOf IsReady ready_lists
AllOf-ready_lists = (tt, (tt, (tt, (tt, (tt, (tt, (tt, tt)))))))

-- A process on some ready list is on the one of its priority.
on_own_list :
    (s : Kern) (L : Members) (n : ListName) (p : Ptr)
    → Inv s L
    → IsReady n
    → has p (L n) ≡ true
    → has p (L (ready (s.procs p).priority)) ≡ true
on_own_list s L (ready i) p v r on =
    let e : (s.procs p).priority ≡ i =
      (ready_home (s.procs p) i (home_on s L (ready i) p v on)).1 in
    rw e on
on_own_list s L free_list p v r on = absurd r
on_own_list s L sleep_list p v r on = absurd r
on_own_list s L zombie_list p v r on = absurd r
on_own_list s L running_list p v r on = absurd r
on_own_list s L embryo_list p v r on = absurd r

abbrev IsOther : ListName → Type 0
IsOther n = (n ≡ sleep_list) ⊎ (n ≡ running_list)

-- The list of a process that does not wait in a ready list does not depend on its priority.
other_home :
    (q : Proc) (n : ListName) (i : ℕ)
    → (n ≡ sleep_list) ⊎ (n ≡ running_list)
    → home q ≡ n
    → home_of q.state i ≡ home q
unfolding home_of
other_home q n i o h = ground arith

-- Of a sleeping or running process only the priority and the budget change.
set_other-cases :
    (s : Kern) (L : Members) (pid i : ℕ)
    → Inv s L
    → IsHeld s.held
    → i ≤ maxprio
    → let y = first_in s.procs (has_pid pid) L (sleep_list ∷ running_list ∷ []) in
      Yields
        (λ r t.
          ((r ≡ pos 0)
            × (y ≢ null)
            × Inv t L
            × (t.procs
                ≡ put s.procs y
                    (record (s.procs y) { priority = i; budget = initial_budget * (i + 1) })))
          ⊎ ((r ≡ negsuc 0) × (y ≡ null) × (t ≡ record s { held = given_back s.held })))
        (set_other pid i s)
unfolding set_other home_of
set_other-cases s L pid i v held small =
    let y = first_in s.procs (has_pid pid) L (sleep_list ∷ running_list ∷ []) in
    rw
      (scan_lists-first (sleep_list ∷ running_list ∷ []) (has_pid pid) s L v.lists
        (refl, (refl, tt)))
      (elim (Bool-cases (y == null)) [
        | inl e ↦ rw (e, release-ok s held) (yields (inr (refl, (==_iff y null).0 e, refl)))
        | inr o ↦
            let (n, other, on, _) =
              first_in-among IsOther s.procs (has_pid pid) L (sleep_list ∷ running_list ∷ [])
                (inl refl, (inr refl, tt)) o in
            let np = on-ne_null s L n y v on in
            let h = other_home (s.procs y) n i other (home_on s L n y v on) in
            let s2 : Kern = record s {
              procs =
                  put s.procs y
                    (record (s.procs y) { priority = i; budget = initial_budget * (i + 1) });
            } in
            rw
              (
                o,
                assign-ok s y (λ q. full_budget (record q { priority = i })) np,
                release-ok s2 held,
              )
              (yields (
                inl (
                  refl,
                  np,
                  Inv-Entry s _ L y _ v (record { procs = refl; ends = refl }) refl h small,
                  refl,
                )))
      ])

-- What setpriority leaves, with `s1` the kernel after acquire.
abbrev pub PrioritySet : Kern → Members → ℕ → ℕ → ℤ → Kern → Type 0
PrioritySet s1 L pid i r t =
    let x = first_in s1.procs (to_change pid i) L ready_lists in
    let y = first_in s1.procs (has_pid pid) L (sleep_list ∷ running_list ∷ []) in
    ((r ≡ pos 0) × (x ≢ null) × Reprioritized s1 L x i t)
    ⊎ ((x ≡ null)
        × (((r ≡ pos 0)
              × (y ≢ null)
              × Inv t L
              × (t.procs
                  ≡ put s1.procs y
                      (record (s1.procs y) { priority = i; budget = initial_budget * (i + 1) })))
            ⊎ ((r ≡ negsuc 0) × (y ≡ null) × (t ≡ record s1 { held = given_back s1.held }))))

-- For a priority of the ready lists: the first ready process with the pid and another priority goes
-- to the end of the list of the new priority, with its full budget; without one, the first sleeping
-- or else running process with the pid gets priority and budget in place; and without one of these
-- the result is -1 and nothing changes. The invariant of the process table holds afterwards.
pub setpriority-PrioritySet :
    (s : Kern) (L : Members) (pid i : ℕ)
    → Inv s L
    → IsFree s.held
    → i ≤ maxprio
    → Yields
        (PrioritySet (record s { held = taken s.held }) L pid i)
        (setpriority (pos pid) (pos i) s)
unfolding setpriority set_found
setpriority-PrioritySet s L pid i v free small =
    let s1 : Kern = record s { held = taken s.held } in
    let v1 = Inv-same s s1 L v refl refl in
    let held = taken-IsHeld s.held in
    let x = first_in s.procs (to_change pid i) L ready_lists in
    let fits : ltb (maxprio + 1) i ≡ false = ground arith in
    rw
      (
        fits,
        acquire-ok s free,
        scan_lists-first ready_lists (to_change pid i) s1 L v1.lists ready_AllLists,
      )
      (elim (Bool-cases (x == null)) [
        | inl e ↦ rw e (
            Yields-mono (set_other-cases s1 L pid i v1 held small)
              λ r t c. inr ((==_iff x null).0 e, c))
        | inr o ↦
            let (n, r, on, _) =
              first_in-among IsReady s1.procs (to_change pid i) L ready_lists AllOf-ready_lists o in
            rw o (
              Yields-mono
                (set_ready-Reprioritized s1 L x i v1 held (on_own_list s1 L n x v1 r on) small)
                λ r t c. inl (c.0, (λ e. ground arith), c.1))
      ])

-- Priority MAXPRIO+1, which the argument test lets pass, leaves the array of the ready lists
-- whenever a ready process has the pid.
pub setpriority_fault :
    (s : Kern) (L : Members) (pid : ℕ)
    → Inv s L
    → IsFree s.held
    → first_in s.procs (to_change pid (maxprio + 1)) L ready_lists ≢ null
    → setpriority (pos pid) (pos (maxprio + 1)) s ≡ fault
unfolding setpriority set_found
setpriority_fault s L pid v free found =
    let s1 : Kern = record s { held = taken s.held } in
    let v1 = Inv-same s s1 L v refl refl in
    let x = first_in s.procs (to_change pid (maxprio + 1)) L ready_lists in
    let o : (x == null) ≡ false = ==_ne x null found in
    let (n, r, on, _) =
      first_in-among IsReady s1.procs (to_change pid (maxprio + 1)) L ready_lists AllOf-ready_lists
        o in
    rw
      (
        acquire-ok s free,
        scan_lists-first ready_lists (to_change pid (maxprio + 1)) s1 L v1.lists ready_AllLists,
        o,
      )
      (set_ready_fault s1 L x v1 (on_own_list s1 L n x v1 r on))
