-- ===== src/Proc/Wait/Reap.antt =====
-- What a round of wait does.
use cs.Prelude.{
  ◌+◌, ◌≡◌, refl, ◌∙◌, ap, ◌≢◌, ◌⊎◌, inl, inr, true, false, ◌∷◌, arith, ◌==◌, ==_refl, ==_iff, not,
  Bool-cases,
}
use cs.Prelude.Finite.{has}
use cs.Prelude.Int.{negsuc, to_int}
use cs.Prelude.Run.{Yields, yields, Yields-bind}
use cs.Bytes.{poke}
use cs.Proc.Table.{
  Ptr, null, nproc, unused, Proc, zombie_list, free_list, kfree, freevm, Kern, put, read_ends, call,
}
use cs.Proc.Table.Lock.{IsHeld, given_back, release-ok}
use cs.Proc.Lists.{home_of}
use cs.Proc.Lists.Members.{Members, Lists-length}
use cs.Proc.Lists.Moves.{Inv, move}
use cs.Proc.Lists.Updates.{Inv-Entry, assign-ok, deref-ok}
use cs.Proc.Lists.Change.{
  Changed, Changed-self, Changed-else, change_then, on-ne_null, held-SameBut,
}
use cs.Proc.Scan.First.{AllLists, first, first_in, scan-first, scan_lists-first, first-cases}
use cs.Proc.Wait.{is_child, living_lists, reap, Round, done, must_sleep, wait_living, wait_round}

-- `t` is `s` with zombie `p` made free.
pub record Reaped (s : Kern) (L : Members) (p : Ptr) (t : Kern) : Type 0 where
  pub inv : Inv t (move L zombie_list free_list p)
  pub state : (t.procs p).state ≡ unused
  pub cleared : ((t.procs p).pid ≡ 0) × ((t.procs p).parent ≡ null) × ((t.procs p).killed ≡ 0)
  pub no_stack : (t.procs p).kstack ≡ 0
  pub no_name : (t.procs p).name 0 ≡ 0
  pub freed : t.calls ≡ freevm (s.procs p).pgdir ∷ kfree (s.procs p).kstack ∷ s.calls
  pub else_same : (q : Ptr) → p ≢ q → t.procs q ≡ record (s.procs q) { next = (t.procs q).next }
  pub held : t.held ≡ given_back s.held

-- The kernel before the process changes its list.
abbrev stackless : Kern → Ptr → Kern
stackless s p = record s {
  procs = put s.procs p (record (s.procs p) { kstack = 0 });
  calls = freevm (s.procs p).pgdir ∷ kfree (s.procs p).kstack ∷ s.calls;
}

abbrev cleared : Proc → Proc
cleared q = record q { pid = 0; parent = null; name = poke q.name 0 0; killed = 0 }

-- The last writes, when the process is on the free list.
cleared-Reaped :
    (s t : Kern) (L : Members) (p : Ptr)
    → p ≢ null
    → Inv t (move L zombie_list free_list p)
    → Changed (stackless s p) t p (record (s.procs p) { kstack = 0; state = unused })
    → Reaped s L p
        (record t { procs = put t.procs p (cleared (t.procs p)); held = given_back t.held })
unfolding home_of
cleared-Reaped s t L p np v d =
    let at_p = Changed-self (stackless s p) t p _ d in
    record {
      inv =
          Inv-Entry t _ _ p (cleared (t.procs p)) v (record { procs = refl; ends = refl }) refl refl
            (v.prios p);
      state = rw (==_refl p) (ap (λ (z : Proc). z.state) at_p);
      cleared = rw (==_refl p) (refl, refl, refl);
      no_stack = rw (==_refl p) (ap (λ (z : Proc). z.kstack) at_p);
      no_name = rw (==_refl p) refl;
      freed = ap (λ (z : Kern). z.calls) d.rest;
      else_same = λ q ne.
          let miss : (q == p) ≡ false = ground arith in
          let e : (stackless s p).procs q ≡ s.procs q = rw miss refl in
          rw miss (
            Changed-else (stackless s p) t p q _ d ne
            ∙ ap (λ (z : Proc). record z { next = (t.procs q).next }) e);
      held = ap given_back (held-SameBut _ t d);
    }

reap-Reaped :
    (s : Kern) (L : Members) (p : Ptr)
    → Inv s L
    → IsHeld s.held
    → has p (L zombie_list) ≡ true
    → Yields (λ r t. (r ≡ to_int (s.procs p).pid) × Reaped s L p t) (reap p s)
unfolding reap home_of call
reap-Reaped s L p v held on =
    let np = on-ne_null s L zombie_list p v on in
    let s1 : Kern = stackless s p in
    let v1 =
      Inv-Entry s s1 L p (record (s.procs p) { kstack = 0 }) v
        (record { procs = refl; ends = refl }) refl refl (v.prios p) in
    let now : s1.procs p ≡ record (s.procs p) { kstack = 0 } = rw (==_refl p) refl in
    rw
      (
        deref-ok s p np,
        assign-ok (record s { calls = kfree (s.procs p).kstack ∷ s.calls }) p
            (λ q. record q { kstack = 0 }) np,
      )
      (change_then s1 L p zombie_list free_list (λ q. record q { state = unused }) _ _ unused _ v1
        refl refl on refl refl (v1.prios p) refl
        λ t v' d.
          let still : IsHeld t.held = rw (held-SameBut _ t d) held in
          let d' : Changed s1 t p (record (s.procs p) { kstack = 0; state = unused }) =
            rw now at d in
          rw
            (
              assign-ok t p cleared np,
              release-ok (record t { procs = put t.procs p (cleared (t.procs p)) }) still,
            )
            (yields (refl, cleared-Reaped s t L p np v' d')))

-- A round of wait: `z` is the first zombie child and `c` the first living one.
abbrev pub Waited : Kern → Members → Round → Kern → Type 0
Waited s L r t =
    let z = first s.procs (is_child s.current) (L zombie_list) in
    let c = first_in s.procs (is_child s.current) L living_lists in
    let killed = not ((s.procs s.current).killed == 0) in
    ((z ≢ null) × (r ≡ done (to_int (s.procs z).pid)) × Reaped s L z t)
    ⊎ ((z ≡ null)
        × ((c ≡ null) ⊎ (killed ≡ true))
        × (r ≡ done (negsuc 0))
        × (t ≡ record s { held = given_back s.held }))
    ⊎ ((z ≡ null) × (c ≢ null) × (killed ≡ false) × (r ≡ must_sleep) × (t ≡ s))

living_AllLists : AllLists living_lists
living_AllLists = (refl, (refl, (refl, (refl, (refl, (refl, (refl, (refl, (refl, (refl, tt))))))))))

wait_living-Waited :
    (s : Kern) (L : Members)
    → Inv s L
    → IsHeld s.held
    → s.current ≢ null
    → first s.procs (is_child s.current) (L zombie_list) ≡ null
    → Yields (Waited s L) (wait_living s)
unfolding wait_living
wait_living-Waited s L v held np none =
    let c = first_in s.procs (is_child s.current) L living_lists in
    let killed = not ((s.procs s.current).killed == 0) in
    rw (scan_lists-first living_lists (is_child s.current) s L v.lists living_AllLists)
      (elim (Bool-cases (c == null)) [
        | inl e ↦
            rw (e, release-ok s held)
              (yields (inr (inl (none, inl ((==_iff c null).0 e), refl, refl))))
        | inr o ↦
            rw (o, deref-ok s s.current np)
              (elim (Bool-cases killed) [
                | inl k ↦ rw (k, release-ok s held) (yields (inr (inl (none, inr k, refl, refl))))
                | inr k ↦ rw k (yields (inr (inr (none, ground arith, k, refl, refl))))
              ])
      ])

-- With the lock held, a round of wait reaps the first zombie child: the process is free, without a
-- kernel stack, pid and parent, its memory is given back, and its pid returned. Without a zombie
-- child it returns -1 if there is no living child or the process is killed, and else it is to sleep;
-- neither changes a process. Where it returns, it gives the lock back; the invariant holds after all.
pub wait_round-Waited :
    (s : Kern) (L : Members)
    → Inv s L
    → IsHeld s.held
    → s.current ≢ null
    → Yields (Waited s L) (wait_round s)
unfolding wait_round read_ends
wait_round-Waited s L v held np =
    let z = first s.procs (is_child s.current) (L zombie_list) in
    rw
      (scan-first (nproc + 1) (is_child s.current) _ s (L zombie_list)
        (v.lists.queue zombie_list refl).chain
        (omega (arith, Lists-length s L v.lists zombie_list)))
      (elim (Bool-cases (z == null)) [
        | inl e ↦ rw e (wait_living-Waited s L v held np ((==_iff z null).0 e))
        | inr o ↦
            let on = (first-cases s.procs (is_child s.current) (L zombie_list) o).0 in
            rw o (
              Yields-bind (reap-Reaped s L z v held on)
                λ r t (e, d). yields (inl (on-ne_null s L zombie_list z v on, ap done e, d)))
      ])
