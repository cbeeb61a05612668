-- ===== src/Kalloc/Chain/Push.antt =====
-- kfree on the linked pages.
use cs.Prelude.{
  ℕ, ◌+◌, ◌%◌, ◌^◌, ◌≤◌, ◌<◌, ◌≡◌, refl, ◌∙◌, sym, subst, ◌≢◌, ◌⊎◌, inl, inr, true, false,
  Bool-cases, List, [], ◌∷◌, arith, ltb,
}
use cs.Prelude.Run.{Yields, yields}
use cs.Bytes.{Memory, poke_word, word_at, memset}
use cs.Bytes.Words.{word_at-poke_ne}
use cs.Bytes.Fill.{memset-filled}
use cs.Spinlock
use cs.Spinlock.{Held}
use cs.Proc.Table.Lock.{IsFree, taken, given_back, given_back-IsFree}
use cs.Kalloc.{pgsize, Kmem, lock_kmem, unlock_kmem, is_bad_page, kfree}

-- The pages linked from `head` on.
abbrev pub Chain : Memory → (head : ℕ) → List ℕ → Type 0
Chain m head [] = head ≡ 0
Chain m head (p ∷ ps) =
    (head ≡ p) × (0 < p) × (p < 2 ^ 32) × (p % pgsize ≡ 0) × Chain m (word_at m p) ps

-- A page that is not among them.
abbrev pub Apart : ℕ → List ℕ → Type 0
Apart v [] = Unit {0}
Apart v (p ∷ ps) = (p ≢ v) × Apart v ps

-- The memory after kfree.
abbrev pub freed : Memory → ℕ → ℕ → Memory
freed m v head = poke_word (memset v 1 pgsize m) v head

pages_apart :
    (p v : ℕ) → p % pgsize ≡ 0 → v % pgsize ≡ 0 → p ≢ v → (p + pgsize ≤ v) ⊎ (v + pgsize ≤ p)
pages_apart p v pa va ne = elim (Bool-cases (ltb p v)) [
  | inl lt ↦ inl (ground arith)
  | inr ge ↦ inr (ground arith)
]

memset-outside : (m : Memory) (v a : ℕ) → (a < v) ⊎ (v + pgsize ≤ a) → memset v 1 pgsize m a ≡ m a
memset-outside m v a h = memset-filled v 1 pgsize m a ∙ ground arith

freed-outside :
    (m : Memory) (v head p : ℕ)
    → (p + pgsize ≤ v) ⊎ (v + pgsize ≤ p)
    → word_at (freed m v head) p ≡ word_at m p
unfolding word_at
freed-outside m v head p apart =
    word_at-poke_ne (memset v 1 pgsize m) v p head (ground arith)
    ∙ rw
        (
          memset-outside m v p (ground arith),
          memset-outside m v (p + 1) (ground arith),
          memset-outside m v (p + 2) (ground arith),
          memset-outside m v (p + 3) (ground arith),
        )
        refl

pub Chain-freed :
    (m : Memory) (v h head : ℕ) (ps : List ℕ)
    → v % pgsize ≡ 0
    → Apart v ps
    → Chain m head ps
    → Chain (freed m v h) head ps
Chain-freed m v h head [] va apart chain = chain
Chain-freed m v h head (p ∷ ps) va (ne, apart) (e, pos, small, aligned, chain) = (
  e,
  pos,
  small,
  aligned,
  subst (λ w. Chain (freed m v h) w ps)
      (sym (freed-outside m v h p (pages_apart p v aligned va ne)))
      (Chain-freed m v h (word_at m p) ps va apart chain),
)

-- What kfree leaves.
abbrev pub Freed : Kmem → (v : ℕ) → Kmem → Type 0
Freed s v t =
    (t.memory ≡ freed s.memory v s.freelist)
    × (t.freelist ≡ v)
    × (t.end ≡ s.end)
    × (t.use_lock ≡ s.use_lock)
    × IsFree t.held

pub kfree-Freed :
    (s : Kmem) (v : ℕ)
    → IsFree s.held
    → is_bad_page s v ≡ false
    → Yields (λ _ t. Freed s v t) (kfree v s)
unfolding kfree lock_kmem unlock_kmem Spinlock.acquire Spinlock.release
kfree-Freed s v free good =
    let m = freed s.memory v s.freelist in
    elim (Bool-cases s.use_lock) [
      | inl e ↦
          rw (good, e, free.not_held, free.no_cli)
            (yields
              {s = record s {
                memory = m;
                freelist = v;
                held = given_back (taken s.held);
                use_lock = true;
              }}
              (refl, refl, refl, refl, given_back-IsFree (taken s.held)))
      | inr e ↦
          rw (good, e)
            (yields {s = record s { memory = m; freelist = v; use_lock = false }}
              (refl, refl, refl, refl, free))
    ]

pub head_small : (m : Memory) (head : ℕ) (ps : List ℕ) → Chain m head ps → head < 2 ^ 32
head_small m head [] e = omega (arith, e)
head_small m head (p ∷ ps) (e, pos, small, aligned, rest) = omega (arith, e, small)
