-- ===== src/Fs/Cases.antt =====
-- balloc with and without a free block.
use cs.Prelude.{
  ℕ, zero, suc, ◌+◌, ◌/◌, ◌%◌, ◌^◌, ◌<◌, ◌≡◌, ◌≢◌, ◌==◌, if◌then◌else◌, refl, sym, subst, ◌∙◌, ◌⊎◌,
  inl, inr, true, false, Option, none, some, arith, ltb, Bool-cases, ==_ne,
}
use cs.Prelude.Run.{Yields, yields, Yields-mono, panic}
use cs.Fs.{Fs, bpb, bblock, search, take_block, mark, bzero, balloc}
use cs.Fs.Bitmap.{take_block-Taken}
use cs.Fs.Bitmap.Bits.{is_free, AllBytes}
use cs.Fs.Bitmap.Search.{search-FirstFree, clear_in-Searched}

-- All blocks are in use.
abbrev pub Full : Fs → Type 0
Full s = (c : ℕ) → c < s.size → is_free s c ≡ false

-- All blocks are in use but, perhaps, one.
abbrev pub FewFree : Fs → Type 0
FewFree s = (b : ℕ) × ((c : ℕ) → c < s.size → b ≢ c → is_free s c ≡ false)

-- The search finds a block if one is free.
search-Full : (s : Fs) → search s (s.size / bpb + 1) 0 ≡ none → Full s
search-Full s nothing c lt = elim (Bool-cases (is_free s c)) [
  | inr used ↦ used
  | inl free ↦
      let (b, found, _) =
        search-FirstFree s (s.size / bpb + 1) 0 c (omega arith) (omega arith) lt free
          (omega arith) in
      absurd (cc (nothing, found))
]

-- A block that is found is free.
abbrev Found : Fs → Option ℕ → Type 0
Found s none = Unit {0}
Found s (some b) = (b < s.size) × (is_free s b ≡ true)

search-Found : (s : Fs) (k base : ℕ) → base % bpb ≡ 0 → Found s (search s k base)
unfolding search
search-Found s zero base aligned = tt
search-Found s (suc k) base aligned = elim (Bool-cases (ltb base s.size)) [
  | inr out ↦ rw out tt
  | inl go ↦ elim (clear_in-Searched s base aligned) [
    | inl (c, found, (low, inside, free, before)) ↦ rw (go, found) (inside, free)
    | inr (nothing, _) ↦ rw (go, nothing) (search-Found s k (base + bpb) (omega arith))
  ]
]

-- The bitmap can be used: its own blocks and block 0 are in use.
pub record IsSound (s : Fs) : Type 0 where
  pub bytes : AllBytes s
  pub own_used : (c : ℕ) → c < s.size → is_free s (bblock s c) ≡ false
  pub zero_used : is_free s 0 ≡ false
  pub size_fits : s.size < 2 ^ 32

-- Where block 0 is in use, balloc panics with all blocks in use, or goes on with another block that is free.
balloc-found :
    (s : Fs) {P : ℕ → Fs → Type 0}
    → is_free s 0 ≡ false
    → ((b : ℕ) → 0 < b → b < s.size → is_free s b ≡ true → Yields P (take_block (some b) s))
    → ((balloc s ≡ panic "balloc: out of blocks") × Full s) ⊎ Yields P (balloc s)
unfolding balloc
balloc-found s {P} used after =
    finish (search s (s.size / bpb + 1) 0) refl (search-Found s (s.size / bpb + 1) 0 refl)
  where
    finish :
        (r : Option ℕ)
        → search s (s.size / bpb + 1) 0 ≡ r
        → Found s r
        → ((take_block r s ≡ panic "balloc: out of blocks") × Full s) ⊎ Yields P (take_block r s)
    finish none e found = inl (refl, search-Full s e)
    finish (some zero) e (inside, free) = absurd cc
    finish (some (suc b)) e (inside, free) = inr (after (suc b) (omega arith) inside free)

-- balloc finds a block other than 0 and leaves 0 in use, or panics with all blocks in use.
pub balloc-cases :
    (s : Fs)
    → IsSound s
    → ((balloc s ≡ panic "balloc: out of blocks") × Full s)
      ⊎ Yields
          (λ b t.
            (0 < b)
            × (b < s.size)
            × (t.size ≡ s.size)
            × (is_free t 0 ≡ false)
            × ((c : ℕ) → c < s.size → is_free t c ≡ (if c == b then false else is_free s c)))
          (balloc s)
balloc-cases s sound = balloc-found s sound.zero_used λ b lo inside free.
    Yields-mono (take_block-Taken s b sound.bytes free sound.own_used)
      λ r t (same, size, bits, zeros). (
        omega (arith, same),
        omega (arith, same),
        size,
        bits 0 (omega arith) ∙ rw (==_ne 0 b (omega arith)) sound.zero_used,
        subst (λ z. (c : ℕ) → c < s.size → is_free t c ≡ (if c == z then false else is_free s c))
            (sym same) bits,
      )

pub balloc-again :
    (s : Fs)
    → is_free s 0 ≡ false
    → ((balloc s ≡ panic "balloc: out of blocks") × Full s)
      ⊎ Yields (λ b _. (0 < b) × (b < s.size)) (balloc s)
unfolding mark bzero
balloc-again s used = balloc-found s used λ b lo inside free. yields (lo, inside)
