-- ===== src/Syscall/Arguments.antt =====
-- What the kernel takes from a process lies in the memory of that process.
use cs.Prelude.{
  ℕ, zero, suc, ◌+◌, ◌-◌, ◌*◌, ◌%◌, ◌||◌, if◌then◌else◌, ltb, ◌^◌, ◌≤◌, ◌<◌, ◌≡◌, refl, ◌∙◌, ap,
  sym, subst, ◌≢◌, ◌↔◌, inl, inr, true, false, Option, none, some, arith, ◌==◌, leb, Bool-cases,
}
use cs.Bytes.{Memory, word_at}
use cs.Proc.Table.{add32}
use cs.Syscall.{text_from, fetchstr, leaves_memory, check_block, fetchint, argint, argptr}

-- A text of `n` bytes stands at `addr`, with its final 0, before `sz`.
abbrev pub IsText : Memory → (sz addr n : ℕ) → Type 0
IsText m sz addr n = (addr + n < sz) × (m (addr + n) ≡ 0) × ((j : ℕ) → j < n → m (addr + j) ≢ 0)

-- The first 0 among `k` bytes from `s` on is byte `t`.
record ZeroAt (m : Memory) (s k t : ℕ) : Type 0 where
  inside : t < k
  zero_at : m (s + t) ≡ 0
  before : (j : ℕ) → j < t → m (s + j) ≢ 0

some_eq : (a b : ℕ) → some a ≡ some b → a ≡ b
some_eq a b e = ap (λ o. elim o [ none ↦ 0 | some x ↦ x ]) e

text_from_sound :
    (m : Memory) (k s n r : ℕ) → text_from m k s n ≡ some r → (t : ℕ) × (r ≡ n + t) × ZeroAt m s k t
unfolding text_from
text_from_sound m zero s n r e = absurd (ground (arith, e))
text_from_sound m (suc k) s n r e = elim (Bool-cases (m s == 0)) [
  | inl z ↦
      let here : n ≡ r = some_eq n r (sym (rw z refl) ∙ e) in
      let same : s + 0 ≡ s = omega arith in
      let at : m (s + 0) ≡ 0 = ap m same ∙ ground arith in
      (
        0,
        omega arith,
        record { inside = omega arith; zero_at = at; before = λ j lt. absurd (omega arith) },
      )
  | inr z ↦
      let further : text_from m k (s + 1) (n + 1) ≡ some r = sym (rw z refl) ∙ e in
      let (t, r_is, f) = text_from_sound m k (s + 1) (n + 1) r further in
      (
        suc t,
        omega arith,
        record {
          inside = omega (arith, f.inside);
          zero_at = ap m (omega arith) ∙ f.zero_at;
          before = λ j lt. elim (Bool-cases (j == 0)) [
            | inl j0 ↦ λ e'.
                let same : s + j ≡ s = ground arith in
                let zero_here : m s ≡ 0 = sym (ap m same) ∙ e' in absurd (ground arith)
            | inr j1 ↦ λ e'. f.before (j - 1) (ground arith) (ap m (ground arith) ∙ e')
          ];
        },
      )
]

text_from_complete : (m : Memory) (k s n t : ℕ) → ZeroAt m s k t → text_from m k s n ≡ some (n + t)
unfolding text_from
text_from_complete m zero s n t f = absurd (omega (arith, f.inside))
text_from_complete m (suc k) s n zero f =
    let here : (m s == 0) ≡ true =
      let e : m s ≡ 0 = ap m (omega arith) ∙ f.zero_at in ground arith in
    rw here (ap some (omega arith))
text_from_complete m (suc k) s n (suc t) f =
    let here : (m s == 0) ≡ false =
      let ne : m (s + 0) ≢ 0 = f.before 0 (omega arith) in
      let same : m (s + 0) ≡ m s = ap m (omega arith) in ground arith in
    rw here (
      text_from_complete m k (s + 1) (n + 1) t (record {
        inside = omega (arith, f.inside);
        zero_at = ap m (omega arith) ∙ f.zero_at;
        before = λ j lt e. f.before (j + 1) (omega arith) (ap m (omega arith) ∙ e);
      })
      ∙ ap some (omega arith))

-- fetchstr returns n exactly if a text of n bytes stands at the address with its final 0 inside of the
-- memory of the process.
pub fetchstr-IsText :
    (m : Memory) (sz addr n : ℕ) → (fetchstr m sz addr ≡ some n) ↔ IsText m sz addr n
unfolding fetchstr
fetchstr-IsText m sz addr n = elim (Bool-cases (leb sz addr)) [
  | inl out ↦ rw out (λ e. absurd (ground (arith, e)), λ t. absurd (ground (arith, t.0)))
  | inr inside ↦ rw inside (
    λ e.
        let (t, r, f) = text_from_sound m (sz - addr) addr 0 n e in
        let same : n ≡ t = omega (arith, r) in
        subst (λ x. IsText m sz addr x) (sym same)
          (ground (arith, f.inside, inside), f.zero_at, f.before),
    λ t.
        text_from_complete m (sz - addr) addr 0 n
          (record { inside = omega (arith, t.0); zero_at = t.1; before = t.2 })
        ∙ ap some (omega arith),
  )
]

check_block_inside :
    (sz size i : ℕ)
    → i + size < 2 ^ 32
    → (o : Option ℕ)
    → (check_block sz size o ≡ some i) ↔ ((o ≡ some i) × (i < sz) × (i + size ≤ sz))
check_block_inside sz size i small none = ground arith
check_block_inside sz size i small (some a) = elim (Bool-cases (leaves_memory sz a size)) [
  | inl out ↦ rw out (
    λ e. absurd (ground (arith, e)),
    λ (e, lt, le).
        let same = some_eq a i e in
        let out' : leaves_memory sz i size ≡ true =
          subst (λ x. leaves_memory sz x size ≡ true) same out in
        absurd (ground arith),
  )
  | inr inside ↦ rw inside (
    λ e.
        let same = some_eq a i e in
        let inside' : leaves_memory sz i size ≡ false =
          subst (λ x. leaves_memory sz x size ≡ false) same inside in
        (e, ground arith, ground arith),
    λ h. h.0,
  )
]

-- The word `i` is argument `n`: it stands above the return address at the stack pointer, in the memory of
-- the process.
abbrev pub IsArgument : Memory → (sz esp n i : ℕ) → Type 0
IsArgument m sz esp n i =
    ((esp + 4 + 4 * n) % 2 ^ 32 < sz)
    × ((esp + 8 + 4 * n) % 2 ^ 32 ≤ sz)
    × (word_at m ((esp + 4 + 4 * n) % 2 ^ 32) ≡ i)

argint-IsArgument :
    (m : Memory) (sz esp n i : ℕ) → (argint m sz esp n ≡ some i) ↔ IsArgument m sz esp n i
unfolding argint fetchint
argint-IsArgument m sz esp n i =
    let place : add32 (add32 esp 4) (4 * n) ≡ (esp + 4 + 4 * n) % 2 ^ 32 = omega arith in
    let end : add32 ((esp + 4 + 4 * n) % 2 ^ 32) 4 ≡ (esp + 8 + 4 * n) % 2 ^ 32 = omega arith in
    rw (place, end) (taken ((esp + 4 + 4 * n) % 2 ^ 32) ((esp + 8 + 4 * n) % 2 ^ 32))
  where
    taken :
        (a b : ℕ)
        → ((if leb sz a || ltb sz b then none else some (word_at m a)) ≡ some i)
          ↔ ((a < sz) × (b ≤ sz) × (word_at m a ≡ i))
    taken a b = elim (Bool-cases (leb sz a || ltb sz b)) [
      | inl out ↦ rw out (λ e. absurd (ground (arith, e)), λ (lt, le, _). absurd (ground arith))
      | inr inside ↦ rw inside (
        λ e. (ground arith, ground arith, some_eq (word_at m a) i e),
        λ (_, _, same). ap some same,
      )
    ]

-- argptr of a size that does not wrap around the address space returns an address exactly if it is the
-- argument, a word that stands above the return address at the stack pointer and in the memory of the
-- process, and the block starts in this memory and ends in it.
pub argptr_inside :
    (m : Memory) (sz esp n size i : ℕ)
    → i + size < 2 ^ 32
    → (argptr m sz esp n size ≡ some i) ↔ (IsArgument m sz esp n i × (i < sz) × (i + size ≤ sz))
unfolding argptr
argptr_inside m sz esp n size i small =
    let block = check_block_inside sz size i small (argint m sz esp n) in
    let word = argint-IsArgument m sz esp n i in
    (
      λ e. let (same, lt, le) = block.0 e in (word.0 same, lt, le),
      λ (is, lt, le). block.1 (word.1 is, lt, le),
    )
