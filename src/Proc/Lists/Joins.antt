-- ===== src/Proc/Lists/Joins.antt =====
-- A process that is on no list joins one.
use cs.Prelude.{
  ◌<◌, ◌≤◌, ◌≡◌, sym, ◌∙◌, ap, subst, ◌⊎◌, inl, inr, true, false, ◌||◌, [], ◌∷◌, ◌++◌, arith,
  Bool-cases,
}
use cs.Prelude.Int.{pos}
use cs.Prelude.Finite.{has, has-append, Distinct-snoc}
use cs.Prelude.Run.{Yields, Yields-mono}
use cs.Proc.Table.{Ptr, nproc, ListName, same_list, same_list_iff, is_list, Kern}
use cs.Proc.StateList.{state_list_add}
use cs.Proc.StateList.Queue.{IsQueue}
use cs.Proc.StateList.Add.{Added, state_list_add-append}
use cs.Proc.Lists.Members.{Members, put_members, Lists, SameBut, IsQueue-Relinked}

-- The lists after `p` has joined list `b`.
abbrev pub join : Members → ListName → Ptr → Members
join L b p = put_members L b (L b ++ p ∷ [])

has-join :
    (L : Members) (b m : ListName) (p q : Ptr)
    → has q (join L b p m) ≡ true
    → ((m ≡ b) × (p ≡ q)) ⊎ (has q (L m) ≡ true)
has-join L b m p q h = elim (Bool-cases (same_list m b)) [
  | inl e ↦
      let e' : m ≡ b = (same_list_iff m b).0 e in
      let h' : (has q (L b) || has q (p ∷ [])) ≡ true =
        rw (has-append q (L b) (p ∷ [])) at (rw e at h) in
      elim (Bool-cases (has q (L b))) [
        | inl old ↦ inr (rw e' old)
        | inr other ↦ inl (e', ground arith)
      ]
  | inr o ↦ inr (rw o at h)
]

pub Lists-add :
    (s : Kern) (L : Members) (b : ListName) (p : Ptr)
    → Lists s L
    → is_list b ≡ true
    → ((m : ListName) → has p (L m) ≡ false)
    → 0 < p
    → p ≤ nproc
    → Yields (λ r t. (r ≡ pos 0) × Lists t (join L b p) × SameBut s t) (state_list_add b p s)
Lists-add s L b p v named out lo hi =
    Yields-mono
      (state_list_add-append b p s (L b) named (v.queue b named) (v.distinct b) (out b)
        (omega arith))
      λ r t (e, added). (e, after t added, same t added)
  where
    same : (t : Kern) → Added s t b (L b) p → SameBut s t
    same t d = record { fields = d.relinked.fields; rest = d.relinked.rest }

    queues :
        (t : Kern)
        → Added s t b (L b) p
        → (n : ListName) → is_list n ≡ true
        → IsQueue t.procs (t.ends n) (join L b p n)
    queues t d n named' = elim (Bool-cases (same_list n b)) [
      | inl e ↦ rw e (
          subst (λ z. IsQueue t.procs (t.ends z) (L b ++ p ∷ [])) (sym ((same_list_iff n b).0 e))
            d.queue)
      | inr o ↦ rw o (
          IsQueue-Relinked s t b n (p ∷ L b) (L n) d.relinked o
            (λ q k. ground (arith, v.apart n b q k, same_list_iff n b, out n)) (v.queue n named'))
    ]

    alone : (m n : ListName) (q : Ptr) → m ≡ b → p ≡ q → has q (join L b p n) ≡ true → m ≡ n
    alone m n q e f k = elim (has-join L b n p q k) [
      | inl (e', _) ↦ e ∙ sym e'
      | inr i ↦ cc (out n, ap (λ z. has z (L n)) f)
    ]

    apart :
        (m n : ListName) (q : Ptr)
        → has q (join L b p m) ≡ true
        → has q (join L b p n) ≡ true
        → m ≡ n
    apart m n q h k = elim (has-join L b m p q h) [
      | inl (e, f) ↦ alone m n q e f k
      | inr i ↦ elim (has-join L b n p q k) [
        | inl (e, f) ↦ sym (alone n m q e f h)
        | inr j ↦ v.apart m n q i j
      ]
    ]

    after : (t : Kern) → Added s t b (L b) p → Lists t (join L b p)
    after t d = record {
      queue = queues t d;
      distinct = λ n. elim (Bool-cases (same_list n b)) [
        | inl e ↦ rw e (Distinct-snoc p (L b) (v.distinct b) (out b))
        | inr o ↦ rw o (v.distinct n)
      ];
      apart = apart;
      bound = λ n q h. elim (has-join L b n p q h) [
        | inl (_, f) ↦ (rw (← f) lo, rw (← f) hi)
        | inr i ↦ v.bound n q i
      ];
    }
