-- ===== src/Proc/Lists/Moves.antt =====
-- A process changes its list with its state: the invariant of the process table, and the rule for
-- the remove, add and check that the operations of proc.c make.
use Prim.Native.String.{String}
use cs.Prelude.{
  ◌<◌, ◌≤◌, ◌≡◌, refl, ◌∙◌, ap, subst, ◌≢◌, inl, inr, true, false, [], ◌∷◌, arith, ◌==◌, ==_refl,
  ==_ne, Bool-cases,
}
use cs.Prelude.Finite.{has, erase, has-append, has-erase_ne, has-erase_self}
use cs.Prelude.Run.{ok, Yields, yields, Yields-bind}
use cs.Proc.Table.{
  Ptr, null, nproc, maxprio, Procstate, Proc, ListName, same_list, same_list_iff, is_list, Kern,
  state_eq, put,
}
use cs.Proc.Lists.{home, relist, relist_unchecked, assert_state}
use cs.Proc.Lists.Members.{Members, put_members, Lists, SameBut, Lists-remove}
use cs.Proc.Lists.Joins.{join, Lists-add}

-- The invariant of the process table: every process is on the list of its state, and on no other.
pub record Inv (s : Kern) (L : Members) : Type 0 where
  pub lists : Lists s L
  pub homes : (p : Ptr) → 0 < p → p ≤ nproc → has p (L (home (s.procs p))) ≡ true
  pub prios : (p : Ptr) → (s.procs p).priority ≤ maxprio

-- The same while `p` has its new state, and not yet its new list.
pub record Pending (s : Kern) (L : Members) (p : Ptr) (b : ListName) : Type 0 where
  pub lists : Lists s L
  pub elsewhere : (q : Ptr) → p ≢ q → 0 < q → q ≤ nproc → has q (L (home (s.procs q))) ≡ true
  pub goes : home (s.procs p) ≡ b
  pub prios : (q : Ptr) → (s.procs q).priority ≤ maxprio

-- The lists after `p` has gone from the one to the end of the other.
abbrev pub move : Members → ListName → ListName → Ptr → Members
move L a b p = join (put_members L a (erase p (L a))) b p

same_list_refl : (n : ListName) → same_list n n ≡ true
same_list_refl n = (same_list_iff n n).1 refl

has-join_self : (L : Members) (b : ListName) (p : Ptr) → has p (join L b p b) ≡ true
has-join_self L b p = rw (same_list_refl b, has-append p (L b) (p ∷ []), ==_refl p) (ground arith)

has-join_old :
    (L : Members) (b m : ListName) (p q : Ptr) → has q (L m) ≡ true → has q (join L b p m) ≡ true
has-join_old L b m p q i = elim (Bool-cases (same_list m b)) [
  | inl e ↦
      let i' : has q (L b) ≡ true = subst (λ z. has q (L z) ≡ true) ((same_list_iff m b).0 e) i in
      rw (e, has-append q (L b) (p ∷ []), i') refl
  | inr o ↦ rw o i
]

has-put_ne :
    (L : Members) (a m : ListName) (p q : Ptr)
    → p ≢ q
    → has q (L m) ≡ true
    → has q (put_members L a (erase p (L a)) m) ≡ true
has-put_ne L a m p q ne i = elim (Bool-cases (same_list m a)) [
  | inl e ↦
      let i' : has q (L a) ≡ true = subst (λ z. has q (L z) ≡ true) ((same_list_iff m a).0 e) i in
      rw (e, has-erase_ne p q (L a) ne) i'
  | inr o ↦ rw o i
]

pub has-put_self :
    (s : Kern) (L : Members) (a m : ListName) (p : Ptr)
    → Lists s L
    → has p (L a) ≡ true
    → has p (put_members L a (erase p (L a)) m) ≡ false
has-put_self s L a m p v i = elim (Bool-cases (same_list m a)) [
  | inl e ↦ rw (e) (has-erase_self p (L a) (v.distinct a))
  | inr o ↦ rw o (ground (arith, v.apart m a p, same_list_iff m a))
]

pub SameBut-trans : (s t u : Kern) → SameBut s t → SameBut t u → SameBut s u
SameBut-trans s t u d e = record {
  fields = λ q. e.fields q ∙ ap (λ (z : Proc). record z { next = (u.procs q).next }) (d.fields q);
  rest = e.rest ∙ ap (λ (z : Kern). record z { procs = u.procs; ends = u.ends }) d.rest;
}

pub home-SameBut : (s t : Kern) → SameBut s t → (q : Ptr) → home (t.procs q) ≡ home (s.procs q)
home-SameBut s t d q = ap home (d.fields q)

pub priority-SameBut :
    (s t : Kern) → SameBut s t → (q : Ptr) → (t.procs q).priority ≡ (s.procs q).priority
priority-SameBut s t d q = ap (λ (z : Proc). z.priority) (d.fields q)

pub Inv-moved :
    (s t : Kern) (L : Members) (p : Ptr) (a b : ListName)
    → Pending s L p b
    → SameBut s t
    → Lists t (move L a b p)
    → Inv t (move L a b p)
Inv-moved s t L p a b v d l = record {
  lists = l;
  homes = λ q lo hi. rw (home-SameBut s t d q) (elim (Bool-cases (p == q)) [
    | inl e ↦
        let e' : p ≡ q = ground arith in
        subst (λ z. has z (move L a b p (home (s.procs z))) ≡ true) e'
          (rw v.goes (has-join_self (put_members L a (erase p (L a))) b p))
    | inr o ↦
        let ne : p ≢ q = ground arith in
        has-join_old (put_members L a (erase p (L a))) b _ p q
          (has-put_ne L a _ p q ne (v.elsewhere q ne lo hi))
  ]);
  prios = λ q. rw (priority-SameBut s t d q) (v.prios q);
}

-- The kernel's remove and add never panic while the invariant holds, and restore it.
pub relist-Inv :
    (s : Kern) (L : Members) (p : Ptr) (a b : ListName) (why why' : String)
    → Pending s L p b
    → is_list a ≡ true
    → is_list b ≡ true
    → has p (L a) ≡ true
    → Yields (λ _ t. Inv t (move L a b p) × SameBut s t) (relist a b p why why' s)
unfolding relist
relist-Inv s L p a b why why' v na nb i =
    Yields-bind (Lists-remove s L a p v.lists na i) λ r t (e, l, d). rw e (
      Yields-bind
        (Lists-add t (put_members L a (erase p (L a))) b p l nb
          (λ m. has-put_self s L a m p v.lists i) (v.lists.bound a p i).0 (v.lists.bound a p i).1)
        λ r' u (e', l', d').
          rw e' (let f = SameBut-trans s t u d d' in yields (Inv-moved s u L p a b v f l', f)))

pub relist-Lists :
    (s : Kern) (L : Members) (p : Ptr) (a b : ListName) (why why' : String)
    → Lists s L
    → is_list a ≡ true
    → is_list b ≡ true
    → has p (L a) ≡ true
    → Yields (λ _ t. Lists t (move L a b p) × SameBut s t) (relist a b p why why' s)
unfolding relist
relist-Lists s L p a b why why' v na nb i =
    Yields-bind (Lists-remove s L a p v na i) λ r t (e, l, d). rw e (
      Yields-bind
        (Lists-add t (put_members L a (erase p (L a))) b p l nb (λ m. has-put_self s L a m p v i)
          (v.bound a p i).0 (v.bound a p i).1)
        λ r' u (e', l', d'). rw e' (yields (l', SameBut-trans s t u d d')))

-- A process that has its new list gets the state, or the priority, of that list.
pub settle-homes :
    (s t : Kern) (L : Members) (p : Ptr) (a b : ListName) (v : Proc)
    → Inv s L
    → SameBut s t
    → home v ≡ b
    → (q : Ptr) → 0 < q
    → q ≤ nproc
    → has q (move L a b p (home (put t.procs p v q))) ≡ true
settle-homes s t L p a b v w d h q lo hi = elim (Bool-cases (q == p)) [
  | inl e ↦
      let e' : p ≡ q = ground arith in
      rw (e, h, ← e') (has-join_self (put_members L a (erase p (L a))) b p)
  | inr o ↦
      let ne : p ≢ q = ground arith in
      rw (o, home-SameBut s t d q)
        (has-join_old (put_members L a (erase p (L a))) b _ p q
          (has-put_ne L a _ p q ne (w.homes q lo hi)))
]

pub relist_unchecked-Inv :
    (s : Kern) (L : Members) (p : Ptr) (a b : ListName)
    → Pending s L p b
    → is_list a ≡ true
    → is_list b ≡ true
    → has p (L a) ≡ true
    → Yields (λ _ t. Inv t (move L a b p) × SameBut s t) (relist_unchecked a b p s)
unfolding relist_unchecked
relist_unchecked-Inv s L p a b v na nb i =
    Yields-bind (Lists-remove s L a p v.lists na i) λ r t (e, l, d).
      Yields-bind
        (Lists-add t (put_members L a (erase p (L a))) b p l nb
          (λ m. has-put_self s L a m p v.lists i) (v.lists.bound a p i).0 (v.lists.bound a p i).1)
        λ r' u (e', l', d').
          let f = SameBut-trans s t u d d' in yields (Inv-moved s u L p a b v f l', f)

pub has-move_self : (L : Members) (a b : ListName) (p : Ptr) → has p (move L a b p b) ≡ true
has-move_self L a b p = has-join_self (put_members L a (erase p (L a))) b p

state_eq_refl : (a : Procstate) → state_eq a a ≡ true
unfolding state_eq
state_eq_refl a = ground arith

pub assert_state-ok :
    (s : Kern) (p : Ptr) (state : Procstate)
    → p ≢ null
    → (s.procs p).state ≡ state
    → assert_state p state s ≡ ok tt s
unfolding assert_state
assert_state-ok s p state ne e = rw (==_ne p null ne, e, state_eq_refl state)
