-- ===== src/Proc/StateList/Remove.antt =====
-- stateListRemove erases.
pub mod Walk
use cs.Prelude.{
  ℕ, zero, suc, ◌+◌, ◌<◌, ◌≤◌, ◌≡◌, refl, sym, ◌≢◌, ◌∙◌, subst, ap, fun_ext, inl, inr, true, false,
  List, [], ◌∷◌, arith, ◌==◌, ==_ne, ==_refl, ==_iff, if◌then◌else◌, Bool-cases, length,
}
use cs.Prelude.Int.{pos, negsuc}
use cs.Prelude.Finite.{has, Distinct, erase, last, has-last}
use cs.Prelude.Run.{ok, Yields, yields}
use cs.Proc.Table.{
  Ptr, null, nproc, Proc, ListName, same_list, same_list_iff, is_list, Ends, Kern, put, put_ends,
}
use cs.Proc.StateList.{state_list_remove, walk, unlink}
use cs.Proc.StateList.Queue.{Chain, TailIs, IsQueue, Relinked, Chain-frame}
use cs.Proc.StateList.Remove.Walk.{
  pred, has-pred, skip, walk-pred, walk-null, Chain-skip, last-erase, next-last,
}

-- What is left of a queue that `p` leaves, and what the call leaves alone.
pub record Removed (s t : Kern) (n : ListName) (l : List Ptr) (p : Ptr) : Type 0 where
  pub queue : IsQueue t.procs (t.ends n) (erase p l)
  pub relinked : Relinked s t n l

same_list_refl : (n : ListName) → same_list n n ≡ true
same_list_refl n = (same_list_iff n n).1 refl

TailIs-tail : (t x : Ptr) (xs : List Ptr) → TailIs t (x ∷ xs) → TailIs t xs
TailIs-tail t x [] e = tt
TailIs-tail t x (y ∷ ys) e = e

head_Removed :
    (n : ListName) (p : Ptr) (s : Kern) (xs : List Ptr)
    → IsQueue s.procs (s.ends n) (p ∷ xs)
    → Removed s
        (record s {
          ends = put_ends s.ends n (record { head = (s.procs p).next; tail = (s.ends n).tail });
        })
        n
        (p ∷ xs)
        p
head_Removed n p s xs q = record {
  queue =
      rw (same_list_refl n, ==_refl p)
        (record { chain = q.chain.2; tail_is = TailIs-tail _ p xs q.tail_is });
  relinked = record {
    fields = λ r. refl;
    outside = λ r o. refl;
    others = λ m o. rw o refl;
    rest = refl;
  };
}

skip-Relinked :
    (n : ListName) (p x q : Ptr) (e : Ends) (xs : List Ptr) (s : Kern)
    → has p (x ∷ xs) ≡ true
    → has q (x ∷ xs) ≡ true
    → Relinked s (record s { procs = skip s.procs q p; ends = put_ends s.ends n e }) n (x ∷ xs)
skip-Relinked n p x q e xs s i j = record {
  fields = λ r. ground arith;
  outside = λ r o. ground arith;
  others = λ m o. rw o refl;
  rest = refl;
}

middle_Removed :
    (n : ListName) (p x : Ptr) (xs : List Ptr) (s : Kern)
    → IsQueue s.procs (s.ends n) (x ∷ xs)
    → Distinct (x ∷ xs)
    → (x == p) ≡ false
    → has p xs ≡ true
    → Removed s
        (record s {
          procs = skip s.procs (pred p x xs) p;
          ends = put_ends s.ends n (record {
            head = (s.ends n).head;
            tail = if p == (s.ends n).tail then pred p x xs else (s.ends n).tail;
          });
        })
        n
        (x ∷ xs)
        p
middle_Removed n p x xs s q d ne i = record {
  queue =
      rw (same_list_refl n, ne)
        (record {
          chain = (q.chain.0, q.chain.1, Chain-skip s.procs p x xs q.chain.2 d i);
          tail_is = rw (q.tail_is, last-erase p x xs d i) (ground arith);
        });
  relinked = skip-Relinked n p x (pred p x xs) _ xs s (ground arith) (has-pred p x xs);
}

put_ends_self : (f : ListName → Ends) (n : ListName) → f ≡ put_ends f n (f n)
put_ends_self f n = fun_ext λ m. elim (Bool-cases (same_list m n)) [
  | inl e ↦ rw e (ap f ((same_list_iff m n).0 e))
  | inr o ↦ rw o refl
]

-- the last branch of the code, on the pointers
unlink-skip :
    (n : ListName) (p q : Ptr) (s : Kern)
    → p ≢ null
    → q ≢ null
    → (p ≡ (s.ends n).tail → (s.procs p).next ≡ null)
    → unlink n (s.ends n) q p p s
      ≡ ok (pos 0) (record s {
        procs = skip s.procs q p;
        ends = put_ends s.ends n (record {
          head = (s.ends n).head;
          tail = if p == (s.ends n).tail then q else (s.ends n).tail;
        });
      })
unfolding unlink
unlink-skip n p q s np nq end = elim (Bool-cases (p == (s.ends n).tail)) [
  | inl e ↦
      rw (e, ==_ne q null nq, ==_ne p null np) (rw (end ((==_iff p (s.ends n).tail).0 e)) refl)
  | inr o ↦ simp (o, ==_ne p null np, ==_ne q null nq, ← put_ends_self s.ends n)
]

remove_head :
    (n : ListName) (p : Ptr) (s : Kern) (xs : List Ptr)
    → is_list n ≡ true
    → IsQueue s.procs (s.ends n) (p ∷ xs)
    → (s.ends n).tail ≢ null
    → state_list_remove n p s
      ≡ ok (pos 0) (record s {
        ends = put_ends s.ends n (record { head = (s.procs p).next; tail = (s.ends n).tail });
      })
unfolding state_list_remove
remove_head n p s xs named q t =
    simp (named, q.chain.0, ==_ne p null q.chain.1, ==_ne _ null t, ==_refl p)

-- Past the head the call walks to `p` and unlinks it.
remove_middle :
    (n : ListName) (p x : Ptr) (s : Kern) (xs : List Ptr)
    → is_list n ≡ true
    → IsQueue s.procs (s.ends n) (x ∷ xs)
    → (s.ends n).tail ≢ null
    → (x == p) ≡ false
    → has p xs ≡ true
    → p ≢ null
    → length (x ∷ xs) ≤ nproc
    → state_list_remove n p s ≡ unlink n (s.ends n) (pred p x xs) p p s
unfolding state_list_remove
remove_middle n p x s xs named q t ne i np short =
    let walked : walk (nproc + 1) null x p s ≡ ok (pred p x xs, p) s =
      walk-pred (nproc + 1) s null x p (x ∷ xs) (refl, q.chain.1, q.chain.2) (rw ne i) (omega arith)
      ∙ ap (λ v. ok (v, p) s) (rw ne refl) in
    simp (named, q.chain.0, ==_ne x null q.chain.1, ==_ne _ null t, ne, walked, ==_ne p null np)

Chain-ne_null :
    (f : Ptr → Proc) (h p : Ptr) (l : List Ptr) → Chain f h l → has p l ≡ true → p ≢ null
Chain-ne_null f h p [] c i = cc
Chain-ne_null f h p (x ∷ xs) c i = elim (Bool-cases (x == p)) [
  | inl e ↦ subst (λ z. z ≢ null) ((==_iff x p).0 e) c.1
  | inr o ↦ Chain-ne_null f (f x).next p xs c.2 (ground arith)
]

pub state_list_remove-erase :
    (n : ListName) (p : Ptr) (s : Kern) (l : List Ptr)
    → is_list n ≡ true
    → IsQueue s.procs (s.ends n) l
    → Distinct l
    → length l ≤ nproc
    → has p l ≡ true
    → Yields (λ r t. (r ≡ pos 0) × Removed s t n l p) (state_list_remove n p s)
state_list_remove-erase n p s [] named q d short i = cc
state_list_remove-erase n p s (x ∷ xs) named q d short i =
    let t : (s.ends n).tail ≢ null =
      rw q.tail_is (Chain-ne_null s.procs _ _ (x ∷ xs) q.chain (has-last x xs)) in
    let np : p ≢ null = Chain-ne_null s.procs _ p (x ∷ xs) q.chain i in
    elim (Bool-cases (x == p)) [
      | inl e ↦
          let q' = subst (λ z. IsQueue s.procs (s.ends n) (z ∷ xs)) ((==_iff x p).0 e) q in
          subst
            (λ z. Yields (λ r t. (r ≡ pos 0) × Removed s t n (z ∷ xs) p) (state_list_remove n p s))
            (sym ((==_iff x p).0 e))
            (rw (remove_head n p s xs named q' t) (yields (refl, head_Removed n p s xs q')))
      | inr o ↦
          let i' : has p xs ≡ true = ground arith in
          let nq : pred p x xs ≢ null =
            Chain-ne_null s.procs _ _ (x ∷ xs) q.chain (has-pred p x xs) in
          let end : p ≡ (s.ends n).tail → (s.procs p).next ≡ null =
            λ e. rw (e, q.tail_is) (next-last s.procs _ x xs q.chain) in
          rw (remove_middle n p x s xs named q t o i' np short, unlink-skip n p _ s np nq end)
            (yields (refl, middle_Removed n p x xs s q d o i'))
    ]

-- From a list that `p` is not in nothing is removed.
pub state_list_remove-absent :
    (n : ListName) (p : Ptr) (s : Kern) (l : List Ptr)
    → is_list n ≡ true
    → IsQueue s.procs (s.ends n) l
    → length l ≤ nproc
    → has p l ≡ false
    → state_list_remove n p s ≡ ok (negsuc 0) s
unfolding state_list_remove
state_list_remove-absent n p s [] named q short o = rw (named, q.chain)
state_list_remove-absent n p s (x ∷ xs) named q short o = elim (Bool-cases (p == null)) [
  | inl e ↦ simp (named, q.chain.0, ==_ne x null q.chain.1, e) (ground arith)
  | inr np ↦
      let t : (s.ends n).tail ≢ null =
        rw q.tail_is (Chain-ne_null s.procs _ _ (x ∷ xs) q.chain (has-last x xs)) in
      let ne : (x == p) ≡ false = ground arith in
      let walked =
        walk-null (nproc + 1) s null x p (x ∷ xs) (refl, q.chain.1, q.chain.2) o (omega arith) in
      simp (named, q.chain.0, ==_ne x null q.chain.1, ==_ne _ null t, ne, np, walked)
]
