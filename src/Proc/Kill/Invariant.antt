-- ===== src/Proc/Kill/Invariant.antt =====
-- What kill does.
use cs.Prelude.{
  ℕ, ◌+◌, ◌≡◌, refl, sym, ap, ◌≢◌, ◌⊎◌, inl, inr, true, false, arith, ◌==◌, ==_refl, ==_iff,
  if◌then◌else◌, Bool-cases,
}
use cs.Prelude.Int.{ℤ, pos, negsuc}
use cs.Prelude.Run.{Yields, yields, Yields-bind}
use cs.Proc.Table.{Ptr, null, nproc, runnable, ready, sleep_list, Kern, put, read_ends}
use cs.Proc.Table.Lock.{IsFree, IsHeld, taken, given_back, acquire-ok, release-ok, taken-IsHeld}
use cs.Proc.Lists.{home_of}
use cs.Proc.Lists.Members.{Members, SameBut, Lists-length}
use cs.Proc.Lists.Moves.{Inv, move, relist-Lists, assert_state-ok, priority-SameBut}
use cs.Proc.Lists.Updates.{Inv-Entry, Inv-same, settle-Inv, assign-ok, deref-ok}
use cs.Proc.Lists.Change.{on-ne_null, held-SameBut}
use cs.Proc.Sched.Budget.{is_list-ready}
use cs.Proc.Scan.First.{
  AllLists, first, first_in, scan-first, scan_lists-first, first-cases, first_in-cases,
}
use cs.Proc.Kill.{has_pid, awake_lists, kill_sleeper, kill_found, kill}

-- `t` is `s` with sleeping process `p` made ready.
pub record Roused (s : Kern) (L : Members) (p : Ptr) (t : Kern) : Type 0 where
  pub inv : Inv t (move L sleep_list (ready (s.procs p).priority) p)
  pub state : (t.procs p).state ≡ runnable
  pub else_same : (q : Ptr) → p ≢ q → t.procs q ≡ record (s.procs q) { next = (t.procs q).next }
  pub held : t.held ≡ s.held

rouse-Roused :
    (s t : Kern) (L : Members) (p : Ptr)
    → Inv s L
    → SameBut s t
    → Inv
        (record t { procs = put t.procs p (record (t.procs p) { state = runnable }) })
        (move L sleep_list (ready (s.procs p).priority) p)
    → Roused s L p (record t { procs = put t.procs p (record (t.procs p) { state = runnable }) })
rouse-Roused s t L p v d w = record {
  inv = w;
  state = rw (==_refl p) refl;
  else_same = λ q ne. let o : (q == p) ≡ false = ground arith in rw o (d.fields q);
  held = held-SameBut s t d;
}

abbrev pub Searched : Kern → Members → ℕ → Ptr → Kern → Type 0
Searched s L pid r t =
    let x = first s.procs (has_pid pid) (L sleep_list) in
    (r ≡ x) × (if x == null then t ≡ s else Roused s L x t)

kill_sleeper-Searched :
    (s : Kern) (L : Members) (pid : ℕ) → Inv s L → Yields (Searched s L pid) (kill_sleeper pid s)
unfolding kill_sleeper read_ends home_of
kill_sleeper-Searched s L pid v =
    let x = first s.procs (has_pid pid) (L sleep_list) in
    rw
      (scan-first (nproc + 1) (has_pid pid) _ s (L sleep_list) (v.lists.queue sleep_list refl).chain
        (omega (arith, Lists-length s L v.lists sleep_list)))
      (elim (Bool-cases (x == null)) [
        | inl e ↦ rw e (yields (sym ((==_iff x null).0 e), rw e refl))
        | inr o ↦
            let on = (first-cases s.procs (has_pid pid) (L sleep_list) o).0 in
            let np = on-ne_null s L sleep_list x v on in
            let named = is_list-ready _ (v.prios x) in
            rw (o, deref-ok s x np)
              (Yields-bind
                (relist-Lists s L x sleep_list (ready (s.procs x).priority) _ _ v.lists refl named
                  on)
                λ _ t (l, d).
                  let same = priority-SameBut s t d x in
                  let w =
                    settle-Inv s t L x sleep_list (ready (s.procs x).priority)
                      (record (t.procs x) { state = runnable }) v d l refl (ap ready same)
                      (rw same (v.prios x)) in
                  let u : Kern = record t {
                    procs = put t.procs x (record (t.procs x) { state = runnable });
                  } in
                  let st : (u.procs x).state ≡ runnable = rw (==_refl x) refl in
                  rw
                    (
                      assign-ok t x (λ r. record r { state = runnable }) np,
                      assert_state-ok u x runnable np st,
                    )
                    (yields (refl, rw o (rouse-Roused s t L x v d w))))
      ])

-- kill on each of its paths, `s1` being the kernel after acquire.
abbrev pub Killed : Kern → Members → ℕ → ℤ → Kern → Type 0
Killed s1 L pid r t =
    let x = first_in s1.procs (has_pid pid) L awake_lists in
    let y = first s1.procs (has_pid pid) (L sleep_list) in
    ((r ≡ pos 0)
      × (x ≢ null)
      × Inv t L
      × (t.procs ≡ put s1.procs x (record (s1.procs x) { killed = 1 })))
    ⊎ ((r ≡ pos 0)
        × (x ≡ null)
        × (y ≢ null)
        × Inv t (move L sleep_list (ready (s1.procs y).priority) y)
        × ((t.procs y).killed ≡ 1)
        × ((t.procs y).state ≡ runnable))
    ⊎ ((r ≡ negsuc 0) × (x ≡ null) × (y ≡ null) × (t ≡ record s1 { held = given_back s1.held }))

kill_awake :
    (s1 : Kern) (L : Members) (pid : ℕ)
    → Inv s1 L
    → IsHeld s1.held
    → (first_in s1.procs (has_pid pid) L awake_lists == null) ≡ false
    → Yields
        (λ r t. Killed s1 L pid r t × (t.held ≡ given_back s1.held))
        (kill_found (first_in s1.procs (has_pid pid) L awake_lists) s1)
unfolding kill_found home_of
kill_awake s1 L pid v held o =
    let x = first_in s1.procs (has_pid pid) L awake_lists in
    let on = first_in-cases s1.procs (has_pid pid) L awake_lists o in
    let np = on-ne_null s1 L on.0 x v on.1 in
    let s2 : Kern = record s1 { procs = put s1.procs x (record (s1.procs x) { killed = 1 }) } in
    rw (o, assign-ok s1 x (λ q. record q { killed = 1 }) np, release-ok s2 held)
      (yields (
        inl (
          refl,
          np,
          Inv-Entry s1 _ L x _ v (record { procs = refl; ends = refl }) refl refl (v.prios x),
          refl,
        ),
        refl,
      ))

kill_asleep :
    (s1 t : Kern) (L : Members) (pid : ℕ)
    → Inv s1 L
    → IsHeld s1.held
    → (first_in s1.procs (has_pid pid) L awake_lists == null) ≡ true
    → Searched s1 L pid (first s1.procs (has_pid pid) (L sleep_list)) t
    → Yields
        (λ r u. Killed s1 L pid r u × (u.held ≡ given_back s1.held))
        (kill_found (first s1.procs (has_pid pid) (L sleep_list)) t)
unfolding kill_found home_of
kill_asleep s1 t L pid v held e found =
    let y = first s1.procs (has_pid pid) (L sleep_list) in
    let none = (==_iff (first_in s1.procs (has_pid pid) L awake_lists) null).0 e in
    elim (Bool-cases (y == null)) [
      | inl k ↦
          let same : t ≡ s1 = rw k at found.1 in
          rw (k, same, release-ok s1 held)
            (yields (inr (inr (refl, none, (==_iff y null).0 k, refl)), refl))
      | inr o ↦
          let w : Roused s1 L y t = rw o at found.1 in
          let on = (first-cases s1.procs (has_pid pid) (L sleep_list) o).0 in
          let np = on-ne_null s1 L sleep_list y v on in
          let t2 : Kern = record t { procs = put t.procs y (record (t.procs y) { killed = 1 }) } in
          rw (o, assign-ok t y (λ q. record q { killed = 1 }) np, release-ok t2 (rw w.held held))
            (yields (
              inr (
                  inl (
                    refl,
                    none,
                    np,
                    Inv-Entry t _ _ y _ w.inv (record { procs = refl; ends = refl }) refl refl
                        (w.inv.prios y),
                    rw (==_refl y) refl,
                    rw (==_refl y) w.state,
                  )),
              ap given_back w.held,
            ))
    ]

awake_AllLists : AllLists awake_lists
awake_AllLists = (refl, (refl, (refl, (refl, (refl, (refl, (refl, (refl, (refl, (refl, tt))))))))))

-- kill marks the first process with the pid, in the order ready, running, embryo and zombie lists
-- and then the sleep list, returns 0, and makes it ready if it sleeps; without such a process it
-- returns -1 and changes nothing. It gives the lock back on every path, and keeps the invariant.
pub kill-Killed :
    (s : Kern) (L : Members) (pid : ℕ)
    → Inv s L
    → IsFree s.held
    → Yields
        (λ r t.
          Killed (record s { held = taken s.held }) L pid r t
          × (t.held ≡ given_back (taken s.held)))
        (kill pid s)
unfolding kill
kill-Killed s L pid v free =
    let s1 : Kern = record s { held = taken s.held } in
    let v1 = Inv-same s s1 L v refl refl in
    let held = taken-IsHeld s.held in
    let x = first_in s.procs (has_pid pid) L awake_lists in
    rw (acquire-ok s free, scan_lists-first awake_lists (has_pid pid) s1 L v1.lists awake_AllLists)
      (elim (Bool-cases (x == null)) [
        | inl e ↦ rw e (
            Yields-bind (kill_sleeper-Searched s1 L pid v1)
              λ r t found. rw found.0 (kill_asleep s1 t L pid v1 held e (refl, found.1)))
        | inr o ↦ rw o (kill_awake s1 L pid v1 held o)
      ])
