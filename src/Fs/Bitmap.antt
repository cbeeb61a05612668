-- ===== src/Fs/Bitmap.antt =====
-- balloc and bfree change one bit of the bitmap.
use Prim.Native.Nat.{bit_and, bit_or}
pub mod Bits
pub mod Search
use cs.Prelude.{
  ℕ, zero, suc, ◌+◌, ◌-◌, ◌*◌, ◌/◌, ◌%◌, ◌≤◌, ◌<◌, ◌≡◌, refl, ◌∙◌, ap, sym, subst, ◌⊎◌, inl, inr,
  Bool, true, false, ◌&&◌, Option, none, some, ◌∷◌, arith, ◌==◌, ltb, ==_refl, Bool-cases,
  if◌then◌else◌,
}
use cs.Prelude.Run.{Yields, yields, Yields-mono}
use cs.Bytes.Fill.{memset-filled}
use cs.Fs.{
  Fs, bsize, bpb, bblock, mask, is_clear, set_byte, find_clear, clear_in, search, mark, bzero,
  take_block, balloc, bfree,
}
use cs.Fs.Bits.{bit_clear, set_bit, clear_bit}
use cs.Fs.Bitmap.Bits.{is_free, AllBytes, changed, changed-is_free}
use cs.Fs.Bitmap.Search.{FirstFree, Searched, clear_in-Searched, search-FirstFree}

-- Block `b` was the first free one; it is in use now, and its data are zeros.
abbrev pub Allocated : Fs → ℕ → Fs → Type 0
Allocated s b t =
    FirstFree s 0 b
    × ((c : ℕ) → c < s.size → is_free t c ≡ (if c == b then false else is_free s c))
    × ((a : ℕ) → a < bsize → t.cache b a ≡ 0)

-- The end of balloc with a block that is free.
pub take_block-Taken :
    (s : Fs) (b : ℕ)
    → AllBytes s
    → is_free s b ≡ true
    → ((c : ℕ) → c < s.size → is_free s (bblock s c) ≡ false)
    → Yields
        (λ r t.
          (r ≡ b)
          × (t.size ≡ s.size)
          × ((c : ℕ) → c < s.size → is_free t c ≡ (if c == b then false else is_free s c))
          × ((a : ℕ) → a < bsize → t.cache b a ≡ 0))
        (take_block (some b) s)
unfolding mark bzero
take_block-Taken s b bytes free own =
    let v = bit_or (s.cache (bblock s b) (b % bpb / 8)) (mask (b % bpb)) in
    let t1 = changed s b v in
    yields (
      refl,
      refl,
      λ c inside.
          let off : (bblock s c == b) ≡ false = elim (Bool-cases (bblock s c == b)) [
            | inl k ↦
                let same : bblock s c ≡ b = ground arith in
                let used : is_free s b ≡ false = sym (ap (is_free s) same) ∙ own c inside in
                absurd (ground (arith, used, free))
            | inr k ↦ k
          ] in
          rw off (
            changed-is_free s b v false
              (λ j small.
                (set_bit (s.cache (bblock s b) (b % bpb / 8)) (b % bpb % 8) j
                  (bytes (bblock s b) (b % bpb / 8)) (omega arith) small).0)
              c),
      λ a small. rw (==_refl b) (memset-filled 0 0 bsize (t1.cache b) a ∙ ground arith),
    )

-- balloc, with a block that is free, and where the blocks of the bitmap are in use, returns the first free
-- block, which is in use afterwards; the bits of all other blocks stay, and its data are zeros.
pub balloc-FirstFree :
    (s : Fs) (f : ℕ)
    → AllBytes s
    → f < s.size
    → is_free s f ≡ true
    → ((c : ℕ) → c < s.size → is_free s (bblock s c) ≡ false)
    → Yields (Allocated s) (balloc s)
unfolding balloc
balloc-FirstFree s f bytes lt free own =
    let (b, e, found) =
      search-FirstFree s (s.size / bpb + 1) 0 f (omega arith) (omega arith) lt free (omega arith) in
    subst (λ r. Yields (Allocated s) (take_block r s)) (sym e)
      (Yields-mono (take_block-Taken s b bytes (found.2) own)
        λ r t (same, _, bits, zeros). subst (λ z. Allocated s z t) (sym same) (found, bits, zeros))

-- bfree of a block in use clears its bit, and leaves the bits of all other blocks as they were.
pub bfree-is_free :
    (s : Fs) (b : ℕ)
    → AllBytes s
    → is_free s b ≡ false
    → Yields (λ _ t. (c : ℕ) → is_free t c ≡ (if c == b then true else is_free s c)) (bfree b s)
unfolding bfree
bfree-is_free s b bytes used =
    let v = bit_and (s.cache (bblock s b) (b % bpb / 8)) (255 - mask (b % bpb)) in
    rw used (
      yields (
        changed-is_free s b v true λ j small.
          (clear_bit (s.cache (bblock s b) (b % bpb / 8)) (b % bpb % 8) j
            (bytes (bblock s b) (b % bpb / 8)) (omega arith) small).0))
