-- ===== src/Fs/Bitmap/Bits.antt =====
-- The bit of a block in the bitmap.
use cs.Prelude.{
  ℕ, ◌/◌, ◌%◌, ◌<◌, ◌≡◌, refl, ◌∙◌, ap, sym, inl, inr, Bool, false, ◌∷◌, arith, ◌==◌, Bool-cases,
  if◌then◌else◌,
}
use cs.Fs.{Fs, bpb, bblock, is_clear, set_byte}
use cs.Fs.Bits.{bit_clear}

-- The bit of block `b` is clear.
abbrev pub is_free : Fs → ℕ → Bool
is_free s b = is_clear (s.cache (bblock s b)) (b % bpb)

abbrev pub AllBytes : Fs → Type 0
AllBytes s = (c a : ℕ) → s.cache c a < 256

-- The state with byte `v` for the bits around block `b`.
abbrev pub changed : Fs → ℕ → ℕ → Fs
changed s b v = record s {
  cache =
      λ c. if c == bblock s b then set_byte (s.cache (bblock s b)) (b % bpb / 8) v else s.cache c;
  logged = bblock s b ∷ s.logged;
}

module _ (s : Fs) (b v : ℕ) (f : Bool) where
  -- One bit of the bitmap gets the value `f`, where one bit of the byte does.
  pub changed-is_free :
      ((j : ℕ)
        → j < 8
        → bit_clear v j
          ≡ (if j == b % bpb % 8 then f else bit_clear (s.cache (bblock s b) (b % bpb / 8)) j))
      → (c : ℕ) → is_free (changed s b v) c ≡ (if c == b then f else is_free s c)
  changed-is_free bits c = elim (Bool-cases (bblock s c == bblock s b)) [
    | inr far ↦ let other : (c == b) ≡ false = ground arith in rw (far, other) refl
    | inl near ↦
        let block : bblock s c ≡ bblock s b = ground arith in
        elim (Bool-cases (c % bpb / 8 == b % bpb / 8)) [
          | inr o ↦
              let other : (c == b) ≡ false = ground arith in
              rw (near, o, other) (ap (λ z. is_clear (s.cache z) (c % bpb)) (sym block))
          | inl e ↦
              let place : c % bpb / 8 ≡ b % bpb / 8 = ground arith in
              let bit : (c % bpb % 8 == b % bpb % 8) ≡ (c == b) = ground arith in
              rw (near, e)
                (bits (c % bpb % 8) (omega arith)
                  ∙ ap
                      (λ z.
                        if z
                        then f
                        else bit_clear (s.cache (bblock s b) (b % bpb / 8)) (c % bpb % 8))
                      bit
                  ∙ rw (block, place) refl)
        ]
  ]
