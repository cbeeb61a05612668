-- ===== src/Proc/Lists/Updates.antt =====
-- The invariant of the process table under writes of single entries.
use cs.Prelude.{
  ◌≤◌, ◌≡◌, refl, ap, subst, ◌≢◌, ◌⊎◌, inl, inr, true, false, List, [], ◌∷◌, arith, ◌==◌, ==_refl,
  ==_ne, Bool-cases,
}
use cs.Prelude.Finite.{has}
use cs.Prelude.Run.{ok}
use cs.Proc.Table.{Ptr, null, maxprio, Proc, ListName, is_list, Kern, put, deref, assign}
use cs.Proc.Lists.{home}
use cs.Proc.StateList.Queue.{Chain}
use cs.Proc.Lists.Members.{Members, Lists, SameBut, Lists-fields}
use cs.Proc.Lists.Moves.{Inv, Pending, move, settle-homes, priority-SameBut}

-- `u` is `t` with entry `p` set to `v`, and anything else that is no entry or list.
pub record Entry (t u : Kern) (p : Ptr) (v : Proc) : Type 0 where
  pub procs : u.procs ≡ put t.procs p v
  pub ends : u.ends ≡ t.ends

next-Entry :
    (t u : Kern) (p : Ptr) (v : Proc)
    → Entry t u p v
    → v.next ≡ (t.procs p).next
    → (q : Ptr) → (u.procs q).next ≡ (t.procs q).next
next-Entry t u p v e n q = rw (e.procs) (ground arith)

Lists-Entry :
    (t u : Kern) (L : Members) (p : Ptr) (v : Proc)
    → Lists t L
    → Entry t u p v
    → v.next ≡ (t.procs p).next
    → Lists u L
Lists-Entry t u L p v l e n =
    Lists-fields t u L l (next-Entry t u p v e n) (λ m. ap (λ f. f m) e.ends)

prios-Entry :
    (t u : Kern) (p : Ptr) (v : Proc)
    → Entry t u p v
    → v.priority ≤ maxprio
    → ((q : Ptr) → (t.procs q).priority ≤ maxprio)
    → (q : Ptr) → (u.procs q).priority ≤ maxprio
prios-Entry t u p v e small old q = rw (e.procs) (ground (arith, old q))

pub Inv-Entry :
    (t u : Kern) (L : Members) (p : Ptr) (v : Proc)
    → Inv t L
    → Entry t u p v
    → v.next ≡ (t.procs p).next
    → home v ≡ home (t.procs p)
    → v.priority ≤ maxprio
    → Inv u L
Inv-Entry t u L p v i e n h small = record {
  lists = Lists-Entry t u L p v i.lists e n;
  homes = λ q lo hi. rw (e.procs) (elim (Bool-cases (q == p)) [
    | inl k ↦
        let k' : q ≡ p = ground arith in
        rw (k, h) (subst (λ z. has q (L (home (t.procs z))) ≡ true) k' (i.homes q lo hi))
    | inr k ↦ rw k (i.homes q lo hi)
  ]);
  prios = prios-Entry t u p v e small i.prios;
}

pub Pending-Entry :
    (t u : Kern) (L : Members) (p : Ptr) (v : Proc) (b : ListName)
    → Inv t L
    → Entry t u p v
    → v.next ≡ (t.procs p).next
    → home v ≡ b
    → v.priority ≤ maxprio
    → Pending u L p b
Pending-Entry t u L p v b i e n h small = record {
  lists = Lists-Entry t u L p v i.lists e n;
  elsewhere =
      λ q ne lo hi. let k : (q == p) ≡ false = ground arith in rw (e.procs, k) (i.homes q lo hi);
  goes = rw (e.procs, ==_refl p) h;
  prios = prios-Entry t u p v e small i.prios;
}

pub assign-ok :
    (s : Kern) (p : Ptr) (f : Proc → Proc)
    → p ≢ null
    → assign p f s ≡ ok tt (record s { procs = put s.procs p (f (s.procs p)) })
unfolding assign
assign-ok s p f ne = rw (==_ne p null ne)

pub deref-ok : (s : Kern) (p : Ptr) → p ≢ null → deref p s ≡ ok (s.procs p) s
unfolding deref
deref-ok s p ne = rw (==_ne p null ne)

head_cases_of :
    (f : Ptr → Proc) (h : Ptr) (l : List Ptr)
    → Chain f h l
    → ((h ≡ null) × (l ≡ [])) ⊎ ((h ≢ null) × (has h l ≡ true))
head_cases_of f h [] c = inl (c, refl)
head_cases_of f h (x ∷ xs) c = inr (rw c.0 c.1, rw (c.0, ==_refl x) refl)

-- The head of a list is null exactly if the list is empty, and else on the list.
pub head_cases :
    (s : Kern) (L : Members) (n : ListName)
    → Lists s L
    → is_list n ≡ true
    → (((s.ends n).head ≡ null) × (L n ≡ []))
      ⊎ (((s.ends n).head ≢ null) × (has (s.ends n).head (L n) ≡ true))
head_cases s L n v named = head_cases_of s.procs _ (L n) (v.queue n named).chain

-- What is no entry and no list does not matter.
pub Inv-same : (s t : Kern) (L : Members) → Inv s L → t.procs ≡ s.procs → t.ends ≡ s.ends → Inv t L
Inv-same s t L v e f = record {
  lists =
      Lists-fields s t L v.lists (λ q. ap (λ (g : Ptr → Proc). (g q).next) e)
        (λ n. ap (λ g. g n) f);
  homes = λ p lo hi. rw e (v.homes p lo hi);
  prios = λ p. rw e (v.prios p);
}

-- The move of the lists first, and the process's entry last.
pub settle-Inv :
    (s t : Kern) (L : Members) (p : Ptr) (a b : ListName) (v : Proc)
    → Inv s L
    → SameBut s t
    → Lists t (move L a b p)
    → v.next ≡ (t.procs p).next
    → home v ≡ b
    → v.priority ≤ maxprio
    → Inv (record t { procs = put t.procs p v }) (move L a b p)
settle-Inv s t L p a b v w d l n h small = record {
  lists =
      Lists-Entry t (record t { procs = put t.procs p v }) _ p v l
        (record { procs = refl; ends = refl }) n;
  homes = settle-homes s t L p a b v w d h;
  prios =
      prios-Entry t (record t { procs = put t.procs p v }) p v
        (record { procs = refl; ends = refl }) small
        (λ q. rw (priority-SameBut s t d q) (w.prios q));
}
