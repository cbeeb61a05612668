-- ===== src/Proc/Lists/Members.antt =====
-- Lists of processes behind the pointers: each list is a queue, and no process is on two lists.
-- What stateListRemove and stateListAdd do to them.
use cs.Prelude.{
  ◌<◌, ◌≤◌, ◌≡◌, sym, ap, subst, inl, inr, true, false, List, arith, if◌then◌else◌, Bool-cases,
  length,
}
use cs.Prelude.Int.{pos}
use cs.Prelude.Finite.{has, Distinct, erase, has-erase_imp, Distinct-erase, length-le}
use cs.Prelude.Run.{Yields, Yields-mono}
use cs.Proc.Table.{Ptr, nproc, Proc, ListName, same_list, same_list_iff, is_list, Kern}
use cs.Proc.StateList.{state_list_remove}
use cs.Proc.StateList.Queue.{IsQueue, Relinked, Chain-frame}
use cs.Proc.StateList.Remove.{Removed, state_list_remove-erase}

abbrev pub Members : Type 0
Members = ListName → List Ptr

abbrev pub put_members : Members → ListName → List Ptr → Members
put_members L n l m = if same_list m n then l else L m

pub record Lists (s : Kern) (L : Members) : Type 0 where
  pub queue : (n : ListName) → is_list n ≡ true → IsQueue s.procs (s.ends n) (L n)
  pub distinct : (n : ListName) → Distinct (L n)
  pub apart : (m n : ListName) (p : Ptr) → has p (L m) ≡ true → has p (L n) ≡ true → m ≡ n
  pub bound : (n : ListName) (p : Ptr) → has p (L n) ≡ true → (0 < p) × (p ≤ nproc)

-- `t` is `s` but for links: the `next` fields and the lists' pointers.
pub record SameBut (s t : Kern) : Type 0 where
  pub fields : (q : Ptr) → t.procs q ≡ record (s.procs q) { next = (t.procs q).next }
  pub rest : t ≡ record s { procs = t.procs; ends = t.ends }

pub Lists-length : (s : Kern) (L : Members) → Lists s L → (n : ListName) → length (L n) ≤ nproc
Lists-length s L v n = length-le nproc (L n) (v.distinct n) (v.bound n)

-- Queues do not change with fields other than `next`.
pub Lists-fields :
    (s t : Kern) (L : Members)
    → Lists s L
    → ((q : Ptr) → (t.procs q).next ≡ (s.procs q).next)
    → ((n : ListName) → t.ends n ≡ s.ends n)
    → Lists t L
Lists-fields s t L v same ends = record {
  queue = λ n named. rw (ends n) (record {
    chain = Chain-frame s.procs t.procs _ (L n) (λ q i. same q) (v.queue n named).chain;
    tail_is = (v.queue n named).tail_is;
  });
  distinct = v.distinct;
  apart = v.apart;
  bound = v.bound;
}

-- A queue that shares no process with the one that is relinked stays.
pub IsQueue-Relinked :
    (s t : Kern) (n m : ListName) (k l : List Ptr)
    → Relinked s t n k
    → same_list m n ≡ false
    → ((q : Ptr) → has q l ≡ true → has q k ≡ false)
    → IsQueue s.procs (s.ends m) l
    → IsQueue t.procs (t.ends m) l
IsQueue-Relinked s t n m k l r o out q = rw (r.others m o) (record {
  chain =
      Chain-frame s.procs t.procs _ l (λ x i. ap (λ (z : Proc). z.next) (r.outside x (out x i)))
        q.chain;
  tail_is = q.tail_is;
})

pub has-put_imp :
    (L : Members) (a m : ListName) (p q : Ptr)
    → has q (put_members L a (erase p (L a)) m) ≡ true
    → has q (L m) ≡ true
has-put_imp L a m p q h = elim (Bool-cases (same_list m a)) [
  | inl e ↦ let e' : m ≡ a = (same_list_iff m a).0 e in rw e' (has-erase_imp p q (L a) (rw e at h))
  | inr o ↦ rw o at h
]

pub Lists-remove :
    (s : Kern) (L : Members) (a : ListName) (p : Ptr)
    → Lists s L
    → is_list a ≡ true
    → has p (L a) ≡ true
    → Yields
        (λ r t. (r ≡ pos 0) × Lists t (put_members L a (erase p (L a))) × SameBut s t)
        (state_list_remove a p s)
Lists-remove s L a p v named i =
    Yields-mono
      (state_list_remove-erase a p s (L a) named (v.queue a named) (v.distinct a)
        (Lists-length s L v a) i)
      λ r t (e, removed). (e, after t removed, same t removed)
  where
    same : (t : Kern) → Removed s t a (L a) p → SameBut s t
    same t d = record { fields = d.relinked.fields; rest = d.relinked.rest }

    queues :
        (t : Kern)
        → Removed s t a (L a) p
        → (n : ListName) → is_list n ≡ true
        → IsQueue t.procs (t.ends n) (put_members L a (erase p (L a)) n)
    queues t d n named' = elim (Bool-cases (same_list n a)) [
      | inl e ↦ rw e (
          subst (λ z. IsQueue t.procs (t.ends z) (erase p (L a))) (sym ((same_list_iff n a).0 e))
            d.queue)
      | inr o ↦ rw o (
          IsQueue-Relinked s t a n (L a) (L n) d.relinked o
            (λ q k. ground (arith, v.apart n a q k, same_list_iff n a)) (v.queue n named'))
    ]

    after : (t : Kern) → Removed s t a (L a) p → Lists t (put_members L a (erase p (L a)))
    after t d = record {
      queue = queues t d;
      distinct = λ n. elim (Bool-cases (same_list n a)) [
        | inl e ↦ rw e (Distinct-erase p (L a) (v.distinct a))
        | inr o ↦ rw o (v.distinct n)
      ];
      apart = λ m n q h k. v.apart m n q (has-put_imp L a m p q h) (has-put_imp L a n p q k);
      bound = λ n q h. v.bound n q (has-put_imp L a n p q h);
    }
