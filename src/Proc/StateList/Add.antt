-- ===== src/Proc/StateList/Add.antt =====
-- stateListAdd appends.
use cs.Prelude.{◌≡◌, refl, sym, ◌≢◌, true, false, List, [], ◌∷◌, ◌++◌, arith, ==_ne, ==_refl}
use cs.Prelude.Int.{pos}
use cs.Prelude.Finite.{has, Distinct, last, has-last, last-snoc}
use cs.Prelude.Run.{ok, Yields, yields}
use cs.Proc.Table.{
  Ptr, null, Proc, ListName, same_list, same_list_iff, is_list, Kern, put, put_ends,
}
use cs.Proc.StateList.{state_list_add}
use cs.Proc.StateList.Queue.{Chain, IsQueue, Relinked, link, Chain-snoc}

-- What `p` joins: the queue afterwards, and what the call leaves alone.
pub record Added (s t : Kern) (n : ListName) (l : List Ptr) (p : Ptr) : Type 0 where
  pub queue : IsQueue t.procs (t.ends n) (l ++ p ∷ [])
  pub relinked : Relinked s t n (p ∷ l)

ne_null_of_last :
    (f : Ptr → Proc) (h x : Ptr) (xs : List Ptr) → Chain f h (x ∷ xs) → last x xs ≢ null
ne_null_of_last f h x [] c = c.1
ne_null_of_last f h x (y ∷ ys) c = ne_null_of_last f (f x).next y ys c.2

-- the two branches of the code, on the pointers
empty_case :
    (n : ListName) (p : Ptr) (s : Kern)
    → is_list n ≡ true
    → (s.ends n).head ≡ null
    → p ≢ null
    → state_list_add n p s
      ≡ ok (pos 0) (record s {
        procs = put s.procs p (record (s.procs p) { next = null });
        ends = put_ends s.ends n (record { head = p; tail = p });
      })
unfolding state_list_add
empty_case n p s named e ne = rw (named, e, ==_ne p null ne)

append_case :
    (n : ListName) (p : Ptr) (s : Kern)
    → is_list n ≡ true
    → (s.ends n).head ≢ null
    → (s.ends n).tail ≢ null
    → p ≢ null
    → state_list_add n p s
      ≡ ok (pos 0) (record s {
        procs = link s.procs (s.ends n).tail p;
        ends = put_ends s.ends n (record { head = (s.ends n).head; tail = p });
      })
unfolding state_list_add
append_case n p s named h t ne =
    simp (named, ==_ne _ _ h, ==_ne _ _ t, ==_refl (s.ends n).tail, ==_ne p null ne)

same_list_refl : (n : ListName) → same_list n n ≡ true
same_list_refl n = (same_list_iff n n).1 refl

empty_Added :
    (n : ListName) (p : Ptr) (s : Kern)
    → p ≢ null
    → Added s
        (record s {
          procs = put s.procs p (record (s.procs p) { next = null });
          ends = put_ends s.ends n (record { head = p; tail = p });
        })
        n
        []
        p
empty_Added n p s ne = record {
  queue = rw (same_list_refl n) (record { chain = ground arith; tail_is = refl });
  relinked = record {
    fields = λ q. ground arith;
    outside = λ q o. ground arith;
    others = λ m o. rw o refl;
    rest = refl;
  };
}

append_Added :
    (n : ListName) (p x : Ptr) (xs : List Ptr) (s : Kern)
    → p ≢ null
    → Chain s.procs (s.ends n).head (x ∷ xs)
    → Distinct (x ∷ xs)
    → has p (x ∷ xs) ≡ false
    → Added s
        (record s {
          procs = link s.procs (last x xs) p;
          ends = put_ends s.ends n (record { head = (s.ends n).head; tail = p });
        })
        n
        (x ∷ xs)
        p
append_Added n p x xs s ne c d out = record {
  queue =
      rw (same_list_refl n) (record {
        chain = Chain-snoc s.procs p _ x xs c d out ne;
        tail_is = sym (last-snoc x p xs);
      });
  relinked = record {
    fields = λ q. ground arith;
    outside = λ q o. ground (arith, has-last x xs);
    others = λ m o. rw o refl;
    rest = refl;
  };
}

pub state_list_add-append :
    (n : ListName) (p : Ptr) (s : Kern) (l : List Ptr)
    → is_list n ≡ true
    → IsQueue s.procs (s.ends n) l
    → Distinct l
    → has p l ≡ false
    → p ≢ null
    → Yields (λ r t. (r ≡ pos 0) × Added s t n l p) (state_list_add n p s)
state_list_add-append n p s [] named q d out ne =
    rw (empty_case n p s named q.chain ne) (yields (refl, empty_Added n p s ne))
state_list_add-append n p s (x ∷ xs) named q d out ne =
    let h : (s.ends n).head ≢ null = rw q.chain.0 q.chain.1 in
    let t : (s.ends n).tail ≢ null = rw q.tail_is (ne_null_of_last s.procs _ x xs q.chain) in
    rw (append_case n p s named h t ne, q.tail_is)
      (yields (refl, append_Added n p x xs s ne q.chain d out))
