-- ===== src/Fs/Bitmap/Search.antt =====
-- The search of balloc for a clear bit.
use cs.Prelude.{
  ℕ, zero, suc, ◌+◌, ◌*◌, ◌/◌, ◌%◌, ◌≤◌, ◌<◌, ◌≡◌, refl, ◌∙◌, ap, sym, subst, ◌⊎◌, inl, inr, true,
  false, ◌&&◌, Option, none, some, arith, ◌==◌, ltb, Bool-cases,
}
use cs.Fs.{Fs, bpb, bblock, is_clear, find_clear, clear_in, search}
use cs.Fs.Bitmap.Bits.{is_free}

-- The first free block from `lo` on.
abbrev pub FirstFree : Fs → ℕ → ℕ → Type 0
FirstFree s lo b =
    (lo ≤ b)
    × (b < s.size)
    × (is_free s b ≡ true)
    × ((c : ℕ) → lo ≤ c → c < b → is_free s c ≡ false)

-- What find_clear finds among the blocks from base + bi up to `hi`.
abbrev pub Searched : Fs → (lo hi : ℕ) → Option ℕ → Type 0
Searched s lo hi r =
    ((b : ℕ) × (r ≡ some b) × FirstFree s lo b)
    ⊎ ((r ≡ none) × ((c : ℕ) → lo ≤ c → c < hi → c < s.size → is_free s c ≡ false))

Searched-step :
    (s : Fs) (lo hi : ℕ) (r : Option ℕ)
    → is_free s lo ≡ false
    → Searched s (lo + 1) hi r
    → Searched s lo hi r
Searched-step s lo hi r used (inl (b, e, (low, inside, free, before))) = inl (
  b,
  e,
  (
    omega arith,
    inside,
    free,
    λ c p q. elim (Bool-cases (c == lo)) [
      | inl k ↦ let same : c ≡ lo = ground arith in ap (is_free s) same ∙ used
      | inr k ↦ before c (ground arith) q
    ],
  ),
)
Searched-step s lo hi r used (inr (e, all)) = inr (
  e,
  λ c p q z. elim (Bool-cases (c == lo)) [
    | inl k ↦ let same : c ≡ lo = ground arith in ap (is_free s) same ∙ used
    | inr k ↦ all c (ground arith) q z
  ],
)

find_clear-Searched :
    (s : Fs) (k base bi : ℕ)
    → base % bpb ≡ 0
    → bpb < bi + k
    → bi ≤ bpb
    → Searched s (base + bi) (base + bpb) (find_clear s k base bi)
unfolding find_clear
find_clear-Searched s zero base bi aligned fuel le = absurd (omega arith)
find_clear-Searched s (suc k) base bi aligned fuel le =
    elim (Bool-cases (ltb bi bpb && ltb (base + bi) s.size)) [
      | inr stop ↦ rw stop (inr (refl, λ c p q z. absurd (ground arith)))
      | inl go ↦
          let block : base / bpb ≡ (base + bi) / bpb = ground arith in
          let place : bi ≡ (base + bi) % bpb = ground arith in
          let here : is_clear (s.cache (bblock s base)) bi ≡ is_free s (base + bi) =
            ap (λ z. is_clear (s.cache (z + s.bmapstart)) bi) block
            ∙ ap (λ z. is_clear (s.cache (bblock s (base + bi))) z) place in
          let next : base + (bi + 1) ≡ base + bi + 1 = omega arith in
          let rest =
            subst (λ z. Searched s z (base + bpb) (find_clear s k base (bi + 1))) next
              (find_clear-Searched s k base (bi + 1) aligned (omega arith) (ground arith)) in
          elim (Bool-cases (is_clear (s.cache (bblock s base)) bi)) [
            | inl free ↦
                rw (go, free)
                  (inl (
                    base + bi,
                    refl,
                    (omega arith, ground arith, sym here ∙ free, λ c p q. absurd (omega arith)),
                  ))
            | inr used ↦
                rw (go, used) (Searched-step s (base + bi) (base + bpb) _ (sym here ∙ used) rest)
          ]
    ]

pub clear_in-Searched :
    (s : Fs) (base : ℕ) → base % bpb ≡ 0 → Searched s base (base + bpb) (clear_in s base)
unfolding clear_in
clear_in-Searched s base aligned =
    let same : base + 0 ≡ base = omega arith in
    subst (λ z. Searched s z (base + bpb) (find_clear s (bpb + 1) base 0)) same
      (find_clear-Searched s (bpb + 1) base 0 aligned (omega arith) (omega arith))

FirstFree-later :
    (s : Fs) (lo mid b : ℕ)
    → lo ≤ mid
    → ((c : ℕ) → lo ≤ c → c < mid → c < s.size → is_free s c ≡ false)
    → FirstFree s mid b
    → FirstFree s lo b
FirstFree-later s lo mid b le none_ (low, inside, free, before) = (
  omega arith,
  inside,
  free,
  λ c p q. elim (Bool-cases (ltb c mid)) [
    | inl k ↦ none_ c p (ground arith) (omega arith)
    | inr k ↦ before c (ground arith) q
  ],
)

pub search-FirstFree :
    (s : Fs) (k base f : ℕ)
    → base % bpb ≡ 0
    → base ≤ f
    → f < s.size
    → is_free s f ≡ true
    → f < base + k * bpb
    → (b : ℕ) × (search s k base ≡ some b) × FirstFree s base b
unfolding search
search-FirstFree s zero base f aligned le lt free fuel = absurd (omega arith)
search-FirstFree s (suc k) base f aligned le lt free fuel =
    let inside : ltb base s.size ≡ true = ground arith in
    let first = clear_in-Searched s base aligned in
    elim first [
      | inl (b, e, found) ↦ rw (inside, e) (b, refl, found)
      | inr (e, none_) ↦
          let beyond : base + bpb ≤ f = elim (Bool-cases (ltb f (base + bpb))) [
            | inl k' ↦ absurd (ground (arith, none_ f le (ground arith) lt, free))
            | inr k' ↦ ground arith
          ] in
          let (b, e', found) =
            search-FirstFree s k (base + bpb) f (omega arith) beyond lt free (omega arith) in
          rw (inside, e) (b, e', FirstFree-later s base (base + bpb) b (omega arith) none_ found)
    ]
