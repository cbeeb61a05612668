-- ===== src/Bio/Ring.antt =====
-- The list of buffers, linked both ways, in the order of their last use.
pub mod Find
use cs.Prelude.{
  ℕ, zero, suc, ◌≡◌, refl, ◌∙◌, ap, sym, subst, ◌≢◌, ◌⊎◌, inl, inr, Bool, true, false, List, [],
  ◌∷◌, ◌++◌, length, length-append, ◌<◌, arith, ◌==◌, ==_refl, Bool-cases, if◌then◌else◌,
}
use cs.Prelude.Finite.{has, Distinct, erase, has-append}
use cs.Prelude.Run.{ok}
use cs.Bio.{head, Buf, Bcache, set_at, find}

-- From `p` the links `nx` lead through the list to `q`, and the links `pv` lead back.
abbrev pub Chain : (nx pv : ℕ → ℕ) → ℕ → List ℕ → ℕ → Type 0
Chain nx pv p [] q = (nx p ≡ q) × (pv q ≡ p)
Chain nx pv p (x ∷ xs) q = (nx p ≡ x) × (pv x ≡ p) × Chain nx pv x xs q

pub Chain-frame :
    (nx pv nx' pv' : ℕ → ℕ) (p : ℕ) (xs : List ℕ) (q : ℕ)
    → ((u : ℕ) → has u (p ∷ xs) ≡ true → nx' u ≡ nx u)
    → ((u : ℕ) → has u xs ≡ true → pv' u ≡ pv u)
    → pv' q ≡ pv q
    → Chain nx pv p xs q
    → Chain nx' pv' p xs q
Chain-frame nx pv nx' pv' p [] q e f g c = (e p (ground arith) ∙ c.0, g ∙ c.1)
Chain-frame nx pv nx' pv' p (x ∷ xs) q e f g c = (
  e p (ground arith) ∙ c.0,
  f x (ground arith) ∙ c.1,
  Chain-frame nx pv nx' pv' x xs q (λ u h. e u (ground arith)) (λ u h. f u (ground arith)) g c.2,
)

-- The neighbours of a buffer on the list.
Chain-prev :
    (nx pv : ℕ → ℕ) (p : ℕ) (xs : List ℕ) (q b : ℕ)
    → Chain nx pv p xs q
    → has b xs ≡ true
    → has (pv b) (p ∷ xs) ≡ true
Chain-prev nx pv p [] q b c h = absurd (ground (arith, h))
Chain-prev nx pv p (x ∷ xs) q b c h = elim (Bool-cases (x == b)) [
  | inl e ↦
      let same : b ≡ x = ground arith in
      let back : pv b ≡ p = ap pv same ∙ c.1 in rw back (ground arith)
  | inr o ↦ ground (arith, Chain-prev nx pv x xs q b c.2 (ground (arith, h)))
]

Chain-next :
    (nx pv : ℕ → ℕ) (p : ℕ) (xs : List ℕ) (q b : ℕ)
    → Chain nx pv p xs q
    → has b (p ∷ xs) ≡ true
    → (has (nx b) xs ≡ true) ⊎ (nx b ≡ q)
Chain-next nx pv p [] q b c h = let same : b ≡ p = ground (arith, h) in inr (ap nx same ∙ c.0)
Chain-next nx pv p (x ∷ xs) q b c h = elim (Bool-cases (p == b)) [
  | inl e ↦
      let same : b ≡ p = ground arith in
      let to : nx b ≡ x = ap nx same ∙ c.0 in inl (rw to (ground arith))
  | inr o ↦ elim (Chain-next nx pv x xs q b c.2 (ground (arith, h))) [
    | inl i ↦ inl (ground (arith, i))
    | inr i ↦ inr i
  ]
]

unlink_first :
    (nx pv : ℕ → ℕ) (p b : ℕ) (xs : List ℕ) (q : ℕ)
    → Chain nx pv p (b ∷ xs) q
    → Distinct (b ∷ xs)
    → has p xs ≡ false
    → has q xs ≡ false
    → Chain (set_at nx (pv b) (nx b)) (set_at pv (nx b) (pv b)) p xs q
unlink_first nx pv p b [] q c d np nq = rw (c.1, c.2.0, ==_refl p, ==_refl q) (refl, refl)
unlink_first nx pv p b (y ∷ ys) q c d np nq =
    subst (λ a. Chain (set_at nx a (nx b)) (set_at pv (nx b) a) p (y ∷ ys) q) (sym c.1)
      (subst (λ w. Chain (set_at nx p w) (set_at pv w p) p (y ∷ ys) q) (sym c.2.0)
        (
          rw (==_refl p) refl,
          rw (==_refl y) refl,
          Chain-frame nx pv (set_at nx p y) (set_at pv y p) y ys q
              (λ u h. let off : (u == p) ≡ false = ground (arith, h) in rw off refl)
              (λ u h. let off : (u == y) ≡ false = ground (arith, h, d) in rw off refl)
              (let off : (q == y) ≡ false = ground arith in rw off refl) c.2.2,
        ))

-- Taking a buffer off the list.
pub Chain-unlink :
    (nx pv : ℕ → ℕ) (p : ℕ) (xs : List ℕ) (q b : ℕ)
    → Chain nx pv p xs q
    → Distinct xs
    → has p xs ≡ false
    → has q xs ≡ false
    → has b xs ≡ true
    → Chain (set_at nx (pv b) (nx b)) (set_at pv (nx b) (pv b)) p (erase b xs) q
Chain-unlink nx pv p [] q b c d np nq h = absurd (ground (arith, h))
Chain-unlink nx pv p (x ∷ xs) q b c d np nq h = elim (Bool-cases (x == b)) [
  | inl e ↦
      let same : b ≡ x = ground arith in
      rw e (
        subst (λ a. Chain (set_at nx (pv a) (nx a)) (set_at pv (nx a) (pv a)) p xs q) (sym same)
          (unlink_first nx pv p x xs q c d (ground arith) (ground arith)))
  | inr o ↦
      let back = Chain-prev nx pv x xs q b c.2 (ground (arith, h)) in
      let to = Chain-next nx pv x xs q b c.2 (ground (arith, h)) in
      let off_p : (p == pv b) ≡ false = ground (arith, back) in
      let off_x : (x == nx b) ≡ false = elim to [
        | inl i ↦ ground (arith, i)
        | inr i ↦ ground (arith, i)
      ] in
      rw o (
        rw off_p c.0,
        rw off_x c.1,
        Chain-unlink nx pv x xs q b c.2 d.1 d.0 (ground arith) (ground (arith, h)),
      )
]

module _ (nx pv : ℕ → ℕ) (p b : ℕ) (ne : b ≢ p) where
  front_at :
      (xs : List ℕ) (w : ℕ)
      → w ≡ nx p
      → Chain nx pv p xs p
      → Distinct xs
      → has p xs ≡ false
      → has b xs ≡ false
      → Chain (set_at (set_at nx b w) p b) (set_at (set_at pv b p) w b) p (b ∷ xs) p
  front_at [] w e c d np nb =
      let off : (b == p) ≡ false = ground arith in
      let to : w ≡ p = e ∙ c.0 in rw (to, off, ==_refl p, ==_refl b) (refl, refl, (refl, refl))
  front_at (x ∷ xs) w e c d np nb =
      let off : (b == p) ≡ false = ground arith in
      let to : w ≡ x = e ∙ c.0 in
      let apart : (b == x) ≡ false = ground arith in
      subst (λ w. Chain (set_at (set_at nx b w) p b) (set_at (set_at pv b p) w b) p (b ∷ x ∷ xs) p)
        (sym to)
        (
          rw (==_refl p) refl,
          rw (apart, ==_refl b) refl,
          (
            rw (off, ==_refl b) refl,
            rw (==_refl x) refl,
            Chain-frame nx pv (set_at (set_at nx b x) p b) (set_at (set_at pv b p) x b) x xs p
                (λ u h.
                  let off_p : (u == p) ≡ false = ground (arith, h) in
                  let off_b : (u == b) ≡ false = ground (arith, h) in rw (off_p, off_b) refl)
                (λ u h.
                  let off_x : (u == x) ≡ false = ground (arith, h, d) in
                  let off_b : (u == b) ≡ false = ground (arith, h) in rw (off_x, off_b) refl)
                (let off_x : (p == x) ≡ false = ground arith in
                  let off_b : (p == b) ≡ false = ground arith in rw (off_x, off_b) refl)
                c.2,
          ),
        )

  -- Putting a buffer in front.
  pub Chain-front :
      (xs : List ℕ)
      → Chain nx pv p xs p
      → Distinct xs
      → has p xs ≡ false
      → has b xs ≡ false
      → Chain
          (set_at (set_at nx b (nx p)) p b)
          (set_at (set_at pv b p) (set_at nx b (nx p) p) b)
          p
          (b ∷ xs)
          p
  Chain-front xs c d np nb =
      let off : (p == b) ≡ false = ground arith in
      let same : nx p ≡ set_at nx b (nx p) p = rw off refl in
      subst (λ w. Chain (set_at (set_at nx b (nx p)) p b) (set_at (set_at pv b p) w b) p (b ∷ xs) p)
        same (front_at xs (nx p) refl c d np nb)
