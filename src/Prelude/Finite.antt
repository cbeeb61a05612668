-- ===== src/Prelude/Finite.antt =====
-- Lists of distinct numbers: membership as a test, erasing, the last element, and the bound that
-- distinct numbers from 1 to n are at most n.
use Prim.Native.Nat.{ℕ, zero, suc, ◌≤◌, ◌<◌}
use mathlib.Core.Path.{◌≡◌, refl}
use mathlib.Core.Logic.{◌≢◌, inl, inr}
use mathlib.Core.Bool.{Bool, true, false, ◌||◌}
use mathlib.Core.List.{List, [], ◌∷◌, ◌++◌}
use native.Mathlib.Omega.{arith}
use cs.Prelude.Tests.{◌==◌, if◌then◌else◌, Bool-cases}
use cs.Prelude.Lists.{length}

abbrev pub has : ℕ → List ℕ → Bool
has x [] = false
has x (y ∷ ys) = (y == x) || has x ys

abbrev pub Distinct : List ℕ → Type 0
Distinct [] = Unit {0}
Distinct (x ∷ xs) = (has x xs ≡ false) × Distinct xs

abbrev pub erase : ℕ → List ℕ → List ℕ
erase x [] = []
erase x (y ∷ ys) = if y == x then ys else y ∷ erase x ys

abbrev pub last : ℕ → List ℕ → ℕ
last x [] = x
last x (y ∷ ys) = last y ys

pub has-append : (x : ℕ) (xs ys : List ℕ) → has x (xs ++ ys) ≡ (has x xs || has x ys)
has-append x [] ys = refl
has-append x (y ∷ xs) ys = ground (arith, has-append x xs ys)

pub has-erase_ne : (x y : ℕ) (l : List ℕ) → x ≢ y → has y (erase x l) ≡ has y l
has-erase_ne x y [] h = refl
has-erase_ne x y (z ∷ l) h = ground (arith, has-erase_ne x y l)

pub has-erase_self : (x : ℕ) (l : List ℕ) → Distinct l → has x (erase x l) ≡ false
has-erase_self x [] d = refl
has-erase_self x (y ∷ l) d = ground (arith, has-erase_self x l d.1)

pub has-erase_imp : (x y : ℕ) (l : List ℕ) → has y (erase x l) ≡ true → has y l ≡ true
has-erase_imp x y [] h = h
has-erase_imp x y (z ∷ l) h = ground (arith, has-erase_imp x y l)

pub Distinct-erase : (x : ℕ) (l : List ℕ) → Distinct l → Distinct (erase x l)
Distinct-erase x [] d = tt
Distinct-erase x (y ∷ l) d = elim (Bool-cases (y == x)) [
  | inl e ↦ ground (arith)
  | inr e ↦ ground (arith, Distinct-erase x l d.1, has-erase_ne x y l)
]

pub Distinct-snoc : (x : ℕ) (l : List ℕ) → Distinct l → has x l ≡ false → Distinct (l ++ x ∷ [])
Distinct-snoc x [] d h = (refl, tt)
Distinct-snoc x (y ∷ l) d h = ground (arith, Distinct-snoc x l d.1, has-append y l (x ∷ []))

pub has-last : (x : ℕ) (l : List ℕ) → has (last x l) (x ∷ l) ≡ true
has-last x [] = ground arith
has-last x (y ∷ l) = ground (arith, has-last y l)

pub last-snoc : (x y : ℕ) (l : List ℕ) → last x (l ++ y ∷ []) ≡ y
last-snoc x y [] = refl
last-snoc x y (z ∷ l) = last-snoc z y l

pub length-erase : (x : ℕ) (l : List ℕ) → length l ≤ suc (length (erase x l))
length-erase x [] = omega arith
length-erase x (y ∷ l) = ground (arith, length-erase x l)

-- Distinct numbers from 1 to n are at most n.
pub length-le :
    (n : ℕ) (l : List ℕ)
    → Distinct l
    → ((x : ℕ) → has x l ≡ true → (0 < x) × (x ≤ n))
    → length l ≤ n
length-le zero [] d b = omega arith
length-le zero (x ∷ l) d b = ground (arith, b x)
length-le (suc n) l d b =
    let shorter =
      length-le n (erase (suc n) l) (Distinct-erase (suc n) l d)
        (λ x h. ground (arith, b x (has-erase_imp (suc n) x l h), has-erase_self (suc n) l d)) in
    omega (arith, length-erase (suc n) l, shorter)
