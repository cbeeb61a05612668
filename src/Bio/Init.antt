-- ===== src/Bio/Init.antt =====
-- binit makes the list of all buffers.
use cs.Prelude.{
  ℕ, zero, suc, ◌+◌, ◌≤◌, ◌<◌, ◌≡◌, refl, subst, ◌⊎◌, inl, inr, true, false, List, [], ◌∷◌, arith,
  ◌==◌, Bool-cases,
}
use cs.Prelude.Run.{Yields, yields, Yields-mono}
use cs.Prelude.Finite.{has, Distinct}
use cs.Bio.{Bcache, nbuf, head, set_at, link_front, link_all, binit}
use cs.Bio.Ring.{Chain, Chain-front}
use cs.Bio.Cached.{unused, Cached}

-- The list after `k` rounds from buffer `b` on.
abbrev pub fronted : (k b : ℕ) → List ℕ → List ℕ
fronted zero b xs = xs
fronted (suc k) b xs = fronted k (b + 1) (b ∷ xs)

-- The memory of bcache at the start: no flag is set.
abbrev pub NoFlags : Bcache → Type 0
NoFlags s =
    (u : ℕ) → ((s.buf u).busy ≡ false) × ((s.buf u).valid ≡ false) × ((s.buf u).dirty ≡ false)

-- The buffers before `b` are on the list.
record Linked (s : Bcache) (b : ℕ) (xs : List ℕ) : Type 0 where
  chain : Chain s.next s.prev head xs head
  distinct : Distinct xs
  members : (u : ℕ) → has u xs ≡ true → (0 < u) × (u < b)
  no_dev : (u : ℕ) → has u xs ≡ true → (s.buf u).dev ≡ unused
  no_flags : NoFlags s

absent :
    (xs : List ℕ) (u b : ℕ)
    → ((v : ℕ) → has v xs ≡ true → (0 < v) × (v < b))
    → (u ≡ 0) ⊎ (b ≤ u)
    → has u xs ≡ false
absent xs u b m out = elim (Bool-cases (has u xs)) [
  | inl h ↦ let r = m u h in absurd (elim out [ inl e ↦ omega arith | inr e ↦ omega arith ])
  | inr h ↦ h
]

link_all-Linked :
    (k b : ℕ) (xs : List ℕ) (s : Bcache)
    → 0 < b
    → Linked s b xs
    → Yields (λ _ t. Linked t (b + k) (fronted k b xs)) (link_all k b s)
unfolding link_all link_front
link_all-Linked zero b xs s pos l =
    let same : b ≡ b + 0 = omega arith in yields (subst (λ a. Linked s a xs) same l)
link_all-Linked (suc k) b xs s pos l =
    let same : b + 1 + k ≡ b + suc k = omega arith in
    let t : Bcache = record s {
      next = set_at (set_at s.next b (s.next head)) head b;
      prev = set_at (set_at s.prev b head) (set_at s.next b (s.next head) head) b;
      buf = set_at s.buf b (record (s.buf b) { dev = unused });
    } in
    let nb = absent xs b b l.members (inr (omega arith)) in
    let l' : Linked t (b + 1) (b ∷ xs) = record {
      chain =
          Chain-front s.next s.prev head b (λ z. absurd (omega arith)) xs l.chain l.distinct
            (absent xs head b l.members (inl refl)) nb;
      distinct = (nb, l.distinct);
      members = λ u h. elim (Bool-cases (b == u)) [
        | inl e ↦ ground arith
        | inr e ↦ let r = l.members u (ground (arith, h)) in (r.0, omega arith)
      ];
      no_dev = λ u h. elim (Bool-cases (u == b)) [
        | inl e ↦ rw e refl
        | inr e ↦ rw e (l.no_dev u (ground (arith, h)))
      ];
      no_flags = λ u. elim (Bool-cases (u == b)) [
        | inl e ↦ rw e (l.no_flags b)
        | inr e ↦ rw e (l.no_flags u)
      ];
    } in
    subst (λ a. Yields (λ _ t. Linked t a (fronted k (b + 1) (b ∷ xs))) (link_all k (b + 1) t)) same
      (link_all-Linked k (b + 1) (b ∷ xs) t (omega arith) l')

-- binit, on memory in which no flag is set, puts every buffer on the list, the last one first, with no
-- block cached; this cache is coherent with any disk.
pub binit-Cached : (s : Bcache) → NoFlags s → Yields (λ _ t. Cached t (fronted nbuf 1 [])) (binit s)
unfolding binit
binit-Cached s none =
    let s1 : Bcache = record s { prev = set_at s.prev head head; next = set_at s.next head head } in
    Yields-mono
      (link_all-Linked nbuf 1 [] s1 (omega arith) (record {
        chain = (refl, refl);
        distinct = tt;
        members = λ u h. absurd (ground (arith, h));
        no_dev = λ u h. absurd (ground (arith, h));
        no_flags = none;
      }))
      λ _ t l. record {
        chain = l.chain;
        distinct = l.distinct;
        members = λ u h. let r = l.members u h in (r.0, omega arith);
        unique = λ u v hu hv a d n. absurd (a (l.no_dev u hu));
        pinned = λ u h dirty. let f = l.no_flags u in absurd (ground (arith, dirty, f.2));
        coherent =
            λ u h free valid clean dev. let f = l.no_flags u in absurd (ground (arith, valid, f.1));
      }
