-- ===== src/Prelude/Bits.antt =====
-- The bitwise or of numbers without a common digit is their sum.
use Prim.Native.Nat.{bit_or, bit_or-bitwise, digits, max}
use native.Mathlib.Numerals.{unary_clauses}
use cs.Prelude.{ap, sym, ℕ, zero, suc, ◌+◌, ◌*◌, ◌/◌, ◌%◌, ◌^◌, ◌≤◌, ◌<◌, ◌≡◌, refl, ◌∙◌, arith}

-- The digits of the or, for `n` digits of the first number.
abbrev or_digits : ℕ → ℕ → ℕ → ℕ
or_digits n a b = digits (λ b. b) max n a b

or_digits-zero : (n b : ℕ) → or_digits n 0 b ≡ b
or_digits-zero zero b = refl
or_digits-zero (suc n) b = refl

-- Rounds enough for the first number give the same.
or_digits_rounds : (k a n m b : ℕ) → a ≤ k → a ≤ n → a ≤ m → or_digits n a b ≡ or_digits m a b
or_digits_rounds k zero n m b h p q = or_digits-zero n b ∙ sym (or_digits-zero m b)
or_digits_rounds k (suc a) zero m b h p q = absurd (omega arith)
or_digits_rounds k (suc a) (suc n) zero b h p q = absurd (omega arith)
or_digits_rounds zero (suc a) (suc n) (suc m) b h p q = absurd (omega arith)
or_digits_rounds (suc k) (suc a) (suc n) (suc m) b h p q =
    let upper =
      or_digits_rounds k (suc a / 2) n m (b / 2) (omega arith) (omega arith) (omega arith) in
    ap (λ z. z * 2 + max (suc a % 2) (b % 2)) upper

zero-bit_or : (b : ℕ) → bit_or 0 b ≡ b
zero-bit_or b = bit_or-bitwise 0 b

-- The law for the lowest digit.
bit_or_step : (a b : ℕ) → bit_or a b ≡ bit_or (a / 2) (b / 2) * 2 + max (a % 2) (b % 2)
bit_or_step zero b = omega (arith, zero-bit_or b, zero-bit_or (b / 2))
bit_or_step (suc a) b =
    let half = suc a / 2 in
    let rounds : or_digits a half (b / 2) ≡ or_digits half half (b / 2) =
      or_digits_rounds half half a half (b / 2) (omega arith) (omega arith) (omega arith) in
    bit_or-bitwise (suc a) b
    ∙ ap (λ z. z * 2 + max (suc a % 2) (b % 2)) (rounds ∙ sym (bit_or-bitwise half (b / 2)))

bit_or-zero_below : (k a : ℕ) → a < k → bit_or a 0 ≡ a
bit_or-zero_below zero a h = absurd (omega arith)
bit_or-zero_below (suc k) zero h = zero-bit_or 0
bit_or-zero_below (suc k) (suc a) h =
    let upper = bit_or-zero_below k (suc a / 2) (omega arith) in
    bit_or_step (suc a) 0 ∙ omega (arith, upper)

bit_or-zero : (a : ℕ) → bit_or a 0 ≡ a
bit_or-zero a = bit_or-zero_below (a + 1) a (omega arith)

-- The or with 1 sets the lowest digit.
pub bit_or-one : (a : ℕ) → bit_or a 1 ≡ a / 2 * 2 + 1
bit_or-one a = omega (arith, bit_or_step a 1, bit_or-zero (a / 2))

bit_or-double : (y b : ℕ) → bit_or (y * 2) b ≡ bit_or y (b / 2) * 2 + b % 2
bit_or-double y b =
    let half : y * 2 / 2 ≡ y = omega arith in
    let even : y * 2 % 2 ≡ 0 = omega arith in bit_or_step (y * 2) b ∙ rw (half, even) (omega arith)

mul_double : (x p : ℕ) → x * (2 * p) ≡ x * p * 2
mul_double x p = omega arith

-- The digits of a multiple of a power of 2, and the digits below it.
pub bit_or-sum : (k x b : ℕ) → b < 2 ^ k → bit_or (x * 2 ^ k) b ≡ x * 2 ^ k + b
bit_or-sum zero x b lt =
    let none : b ≡ 0 = omega (arith, lt) in
    let one : x * 2 ^ 0 ≡ x = omega arith in rw (none, one) (bit_or-zero x ∙ omega arith)
bit_or-sum (suc k) x b lt =
    let power : 2 ^ suc k ≡ 2 * 2 ^ k = simp unary_clauses (omega arith) in
    let twice : x * 2 ^ suc k ≡ x * 2 ^ k * 2 = rw power (mul_double x (2 ^ k)) in
    let small : b / 2 < 2 ^ k = omega (arith, power, lt) in
    rw twice (bit_or-double (x * 2 ^ k) b ∙ omega (arith, bit_or-sum k x (b / 2) small))
