-- ===== src/Fs/Bits.antt =====
-- Setting and clearing one bit of a byte, by evaluation of all cases.
use Prim.Native.Nat.{bit_and, bit_or}
use cs.Prelude.{
  ℕ, zero, suc, ◌-◌, ◌^◌, ◌<◌, ◌≡◌, refl, Bool, true, false, ◌&&◌, arith, ◌==◌, ltb, if◌then◌else◌,
}

each : ℕ → (ℕ → Bool) → Bool
each zero p = true
each (suc n) p = p n && each n p

each_sound : (n : ℕ) (p : ℕ → Bool) (x : ℕ) → each n p ≡ true → x < n → p x ≡ true
unfolding each
each_sound zero p x h lt = absurd (omega arith)
each_sound (suc n) p x h lt = ground (arith, each_sound n p x)

abbrev pub bit_clear : ℕ → ℕ → Bool
bit_clear x j = bit_and x (2 ^ j) == 0

abbrev same : Bool → Bool → Bool
same true true = true
same false false = true
same _ _ = false

same_sound : (a b : Bool) → same a b ≡ true → a ≡ b
same_sound true true h = refl
same_sound false false h = refl
same_sound true false h = absurd (ground (arith, h))
same_sound false true h = absurd (ground (arith, h))

and_both : (a b : Bool) → (a && b) ≡ true → (a ≡ true) × (b ≡ true)
and_both true b h = (refl, h)
and_both false b h = absurd (ground (arith, h))

abbrev set_ok : ℕ → ℕ → ℕ → Bool
set_ok x k j =
    same (bit_clear (bit_or x (2 ^ k)) j) (if j == k then false else bit_clear x j)
    && ltb (bit_or x (2 ^ k)) 256

abbrev clear_ok : ℕ → ℕ → ℕ → Bool
clear_ok x k j =
    same (bit_clear (bit_and x (255 - 2 ^ k)) j) (if j == k then true else bit_clear x j)
    && ltb (bit_and x (255 - 2 ^ k)) 256

set_table : each 256 (λ x. each 8 (λ k. each 8 (λ j. set_ok x k j))) ≡ true
unfolding each
set_table = refl

clear_table : each 256 (λ x. each 8 (λ k. each 8 (λ j. clear_ok x k j))) ≡ true
unfolding each
clear_table = refl

-- Setting bit `k` sets that bit of the byte, and no other.
pub set_bit :
    (x k j : ℕ)
    → x < 256
    → k < 8
    → j < 8
    → (bit_clear (bit_or x (2 ^ k)) j ≡ (if j == k then false else bit_clear x j))
      × (bit_or x (2 ^ k) < 256)
set_bit x k j hx hk hj =
    let row = each_sound 256 _ x set_table hx in
    let entry = each_sound 8 (λ j. set_ok x k j) j (each_sound 8 _ k row hk) hj in
    let parts = and_both (same _ _) (ltb (bit_or x (2 ^ k)) 256) entry in
    (same_sound _ _ parts.0, ground (arith, parts.1))

pub clear_bit :
    (x k j : ℕ)
    → x < 256
    → k < 8
    → j < 8
    → (bit_clear (bit_and x (255 - 2 ^ k)) j ≡ (if j == k then true else bit_clear x j))
      × (bit_and x (255 - 2 ^ k) < 256)
clear_bit x k j hx hk hj =
    let row = each_sound 256 _ x clear_table hx in
    let entry = each_sound 8 (λ j. clear_ok x k j) j (each_sound 8 _ k row hk) hj in
    let parts = and_both (same _ _) (ltb (bit_and x (255 - 2 ^ k)) 256) entry in
    (same_sound _ _ parts.0, ground (arith, parts.1))
