-- ===== src/Bio/Ring/Find.antt =====
-- The loops of bget over the list of buffers, in either direction.
use cs.Prelude.{
  ℕ, zero, suc, ◌≡◌, refl, ◌∙◌, ap, subst, ◌≢◌, ◌⊎◌, inl, inr, Bool, true, false, List, [], ◌∷◌,
  ◌++◌, length, length-append, ◌<◌, arith, ◌==◌, Bool-cases, if◌then◌else◌,
}
use cs.Prelude.Finite.{has, has-append}
use cs.Prelude.Run.{ok}
use cs.Bio.{head, Buf, Bcache, find}
use cs.Bio.Ring.{Chain}

-- From `p` the links lead through the list to `q`.
abbrev pub Links : (ℕ → ℕ) → ℕ → List ℕ → ℕ → Type 0
Links f p [] q = f p ≡ q
Links f p (x ∷ xs) q = (f p ≡ x) × Links f x xs q

abbrev pub backwards : List ℕ → List ℕ
backwards [] = []
backwards (x ∷ xs) = backwards xs ++ x ∷ []

pub Chain-Links :
    (nx pv : ℕ → ℕ) (p : ℕ) (xs : List ℕ) (q : ℕ) → Chain nx pv p xs q → Links nx p xs q
Chain-Links nx pv p [] q c = c.0
Chain-Links nx pv p (x ∷ xs) q c = (c.0, Chain-Links nx pv x xs q c.2)

Links-snoc :
    (f : ℕ → ℕ) (p x : ℕ) (xs : List ℕ) (q : ℕ)
    → Links f p xs x
    → f x ≡ q
    → Links f p (xs ++ x ∷ []) q
Links-snoc f p x [] q l e = (l, e)
Links-snoc f p x (y ∷ ys) q l e = (l.0, Links-snoc f y x ys q l.1 e)

pub Chain-Links_back :
    (nx pv : ℕ → ℕ) (p : ℕ) (xs : List ℕ) (q : ℕ) → Chain nx pv p xs q → Links pv q (backwards xs) p
Chain-Links_back nx pv p [] q c = c.1
Chain-Links_back nx pv p (x ∷ xs) q c =
    Links-snoc pv q x (backwards xs) p (Chain-Links_back nx pv x xs q c.2) c.1

pub has-backwards : (u : ℕ) (xs : List ℕ) → has u (backwards xs) ≡ has u xs
has-backwards u [] = refl
has-backwards u (x ∷ xs) = ground (arith, has-append u (backwards xs) (x ∷ []), has-backwards u xs)

pub length-backwards : (xs : List ℕ) → length (backwards xs) ≡ length xs
length-backwards [] = refl
length-backwards (x ∷ xs) =
    length-append (backwards xs) (x ∷ []) ∙ omega (arith, length-backwards xs)

-- The first buffer that passes the test, or the head.
abbrev pub first : (ℕ → Buf) → (Buf → Bool) → List ℕ → ℕ
first f test [] = head
first f test (x ∷ xs) = if test (f x) then x else first f test xs

pub find-first :
    (test : Buf → Bool) (links : Bcache → ℕ → ℕ) (k p : ℕ) (xs : List ℕ) (s : Bcache)
    → Links (links s) p xs head
    → has head xs ≡ false
    → length xs < k
    → find test links k (links s p) s ≡ ok (first s.buf test xs) s
unfolding find
find-first test links zero p xs s l nz lt = absurd (omega arith)
find-first test links (suc k) p [] s l nz lt = rw l refl
find-first test links (suc k) p (x ∷ xs) s l nz lt =
    let rest = find-first test links k x xs s l.1 (ground arith) (omega arith) in
    let off : (x == head) ≡ false = ground arith in
    rw (l.0, off) (elim (Bool-cases (test (s.buf x))) [ inl e ↦ rw e refl | inr e ↦ rw e rest ])

-- `r` is the head and no buffer of the list passes, or `r` is one that passes.
abbrev pub Found : (ℕ → Buf) → (Buf → Bool) → List ℕ → ℕ → Type 0
Found f test xs r =
    ((r ≡ head) × ((u : ℕ) → has u xs ≡ true → test (f u) ≡ false))
    ⊎ ((r ≢ head) × (has r xs ≡ true) × (test (f r) ≡ true))

pub first-Found :
    (f : ℕ → Buf) (test : Buf → Bool) (xs : List ℕ)
    → has head xs ≡ false
    → Found f test xs (first f test xs)
first-Found f test [] nz = inl (refl, λ u h. absurd (ground (arith, h)))
first-Found f test (x ∷ xs) nz = elim (Bool-cases (test (f x))) [
  | inl e ↦
      let same : x ≡ first f test (x ∷ xs) = rw e refl in
      subst (Found f test (x ∷ xs)) same (inr (λ z. absurd (ground arith), ground arith, e))
  | inr e ↦
      let same : first f test xs ≡ first f test (x ∷ xs) = rw e refl in
      subst (Found f test (x ∷ xs)) same (elim (first-Found f test xs (ground arith)) [
        | inl (none, all) ↦ inl (
          none,
          λ u h. elim (Bool-cases (x == u)) [
            | inl k ↦ let same : u ≡ x = ground arith in ap (λ z. test (f z)) same ∙ e
            | inr k ↦ all u (ground (arith, h))
          ],
        )
        | inr (nh, i, t) ↦ inr (nh, ground (arith, i), t)
      ])
]
