-- ===== src/Proc/Priority/Set.antt =====
-- What setpriority does.
use cs.Prelude.{
  ℕ, ◌+◌, ◌*◌, ◌<◌, ◌≤◌, ◌≡◌, refl, ◌∙◌, ap, inl, inr, true, arith, ◌==◌, ==_refl, Bool-cases,
}
use cs.Prelude.Int.{pos, negsuc}
use cs.Prelude.Finite.{has}
use cs.Prelude.Run.{ok, fault, Yields, yields, Yields-bind, Yields-eq}
use cs.Proc.Table.{Ptr, maxprio, initial_budget, Proc, ready, Kern, put}
use cs.Proc.Table.Lock.{IsHeld, given_back, release-ok}
use cs.Proc.StateList.{state_list_add}
use cs.Proc.Lists.{home_of}
use cs.Proc.Lists.Members.{Members, SameBut, Lists, Lists-remove, Lists-fields}
use cs.Proc.Lists.Joins.{Lists-add}
use cs.Proc.Lists.Moves.{Inv, move, Inv-moved, has-put_self}
use cs.Proc.Lists.Updates.{Inv-Entry, Pending-Entry, assign-ok, deref-ok}
use cs.Proc.Lists.Change.{on-ne_null, held-SameBut, home_on, ready_home, Changed-self}
use cs.Proc.Sched.Budget.{is_list-ready}
use cs.Proc.Scan.{ready_lists}
use cs.Proc.Scan.First.{AllLists}
use cs.Proc.Priority.{full_budget, set_ready, setpriority}

-- Arguments out of range are refused, and nothing changes.
setpriority_refused :
    (pid priority : ℕ) (s : Kern)
    → maxprio + 1 < priority
    → setpriority (pos pid) (pos priority) s ≡ ok (negsuc 0) s
unfolding setpriority
setpriority_refused pid priority s h = ground arith

pub ready_AllLists : AllLists ready_lists
ready_AllLists = (refl, (refl, (refl, (refl, (refl, (refl, (refl, tt)))))))

-- A ready process that is given priority MAXPRIO+1 is taken off its list, and then the add is
-- outside of the array ready.
pub set_ready_fault :
    (s : Kern) (L : Members) (p : Ptr)
    → Inv s L
    → has p (L (ready (s.procs p).priority)) ≡ true
    → set_ready (maxprio + 1) p s ≡ fault
unfolding set_ready state_list_add
set_ready_fault s L p v on =
    let named = is_list-ready _ (v.prios p) in
    let np = on-ne_null s L _ p v on in
    let (r, t, eq, (e, l, d)) =
      Yields-eq (Lists-remove s L (ready (s.procs p).priority) p v.lists named on) in
    rw (deref-ok s p np, eq, e, assign-ok t p (λ q. record q { priority = maxprio + 1 }) np) refl

-- Between the remove and the add only the links and the priority of `p` change.
SameBut-priority :
    (s t w : Kern) (p : Ptr) (i : ℕ)
    → SameBut s t
    → SameBut (record t { procs = put t.procs p (record (t.procs p) { priority = i }) }) w
    → SameBut (record s { procs = put s.procs p (record (s.procs p) { priority = i }) }) w
SameBut-priority s t w p i d e = record {
  fields = λ q. e.fields q ∙ elim (Bool-cases (q == p)) [
    | inl k ↦
        rw k (ap (λ (z : Proc). record z { priority = i; next = (w.procs q).next }) (d.fields p))
    | inr k ↦ rw k (ap (λ (z : Proc). record z { next = (w.procs q).next }) (d.fields q))
  ];
  rest = e.rest ∙ ap (λ (z : Kern). record z { procs = w.procs; ends = w.ends }) d.rest;
}

-- What setpriority does to a ready process: it goes to the end of the list of its new priority.
pub record Reprioritized (s : Kern) (L : Members) (p : Ptr) (i : ℕ) (t : Kern) : Type 0 where
  pub inv : Inv t (move L (ready (s.procs p).priority) (ready i) p)
  pub priority : (t.procs p).priority ≡ i
  pub budget : (t.procs p).budget ≡ initial_budget * (i + 1)
  pub held : t.held ≡ given_back s.held

reprioritized :
    (s w : Kern) (L : Members) (p : Ptr) (i : ℕ)
    → Inv s L
    → has p (L (ready (s.procs p).priority)) ≡ true
    → i ≤ maxprio
    → SameBut (record s { procs = put s.procs p (record (s.procs p) { priority = i }) }) w
    → Lists w (move L (ready (s.procs p).priority) (ready i) p)
    → Reprioritized s L p i
        (record w { procs = put w.procs p (full_budget (w.procs p)); held = given_back w.held })
unfolding home_of
reprioritized s w L p i v on small d l =
    let runs = ready_home (s.procs p) _ (home_on s L _ p v on) in
    let q : Proc = record (s.procs p) { priority = i } in
    let pending =
      Pending-Entry s (record s { procs = put s.procs p q }) L p q (ready i) v
        (record { procs = refl; ends = refl }) refl (rw runs.0 refl) small in
    let at_p : (w.procs p).priority ≡ i = ap (λ (z : Proc). z.priority) (Changed-self s w p q d) in
    let moved =
      Inv-moved (record s { procs = put s.procs p q }) w L p (ready (s.procs p).priority) (ready i)
        pending d l in
    record {
      inv =
          Inv-Entry w _ _ p (full_budget (w.procs p)) moved (record { procs = refl; ends = refl })
            refl refl (moved.prios p);
      priority = rw (==_refl p) at_p;
      budget = rw (==_refl p) (ap (λ (z : ℕ). initial_budget * (z + 1)) at_p);
      held = ap given_back (held-SameBut _ w d);
    }

pub set_ready-Reprioritized :
    (s : Kern) (L : Members) (p : Ptr) (i : ℕ)
    → Inv s L
    → IsHeld s.held
    → has p (L (ready (s.procs p).priority)) ≡ true
    → i ≤ maxprio
    → Yields (λ r t. (r ≡ pos 0) × Reprioritized s L p i t) (set_ready i p s)
unfolding set_ready
set_ready-Reprioritized s L p i v held on small =
    let a = ready (s.procs p).priority in
    let named = is_list-ready _ (v.prios p) in
    let np = on-ne_null s L a p v on in
    let b = v.lists.bound a p on in
    rw (deref-ok s p np) (
      Yields-bind (Lists-remove s L a p v.lists named on) λ r t (e, l, d).
        let u : Kern = record t { procs = put t.procs p (record (t.procs p) { priority = i }) } in
        rw (e, assign-ok t p (λ q. record q { priority = i }) np)
          (Yields-bind
            (Lists-add u _ (ready i) p (Lists-fields t u _ l (λ q. ground arith) (λ n. refl))
              (is_list-ready i small) (λ m. has-put_self s L a m p v.lists on) b.0 b.1)
            λ r' w (e', l', d').
              let d2 = SameBut-priority s t w p i d d' in
              let x : Kern = record w { procs = put w.procs p (full_budget (w.procs p)) } in
              let same : x.held ≡ s.held = held-SameBut _ w d2 in
              rw (e', assign-ok w p full_budget np, release-ok x (rw same held))
                (yields (refl, reprioritized s w L p i v on small d2 l'))))
