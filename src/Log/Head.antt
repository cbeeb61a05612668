-- ===== src/Log/Head.antt =====
-- The header block: what write_head encodes and read_head decodes.
use cs.Prelude.{
  ◌∷◌, ==_refl, ℕ, zero, suc, ◌+◌, ◌*◌, ◌^◌, ◌≤◌, ◌<◌, ◌≡◌, refl, ◌∙◌, inl, inr, true, false, arith,
  ◌==◌, ltb, Bool-cases,
}
use cs.Prelude.Run.{Yields, yields, Yields-bind, Yields-mono}
use cs.Bytes.{poke_word, word_at}
use cs.Bytes.Words.{word_at-poke_word, word_at-poke_ne}
use cs.Log.{
  Block, LogState, logsize, put_number, put_block, put_flag, rounds, read_blocks, write_blocks,
  write_head,
}

-- `h` is `head` with the block numbers from `i` on, `k` of them.
pub record Encoded (s : LogState) (head h : Block) (k i : ℕ) : Type 0 where
  pub entry : (j : ℕ) → i ≤ j → j < i + k → word_at h (4 + 4 * j) ≡ s.block j
  pub before : (a : ℕ) → a ≤ 4 * i → word_at h a ≡ word_at head a

Encoded-step :
    (s : LogState) (head h : Block) (k i : ℕ)
    → s.block i < 2 ^ 32
    → Encoded s (poke_word head (4 + 4 * i) (s.block i)) h k (i + 1)
    → Encoded s head h (suc k) i
Encoded-step s head h k i small e = record {
  entry = λ j lo hi. elim (Bool-cases (j == i)) [
    | inl c ↦
        let same : j ≡ i = ground arith in
        rw same (
          e.before (4 + 4 * i) (omega arith) ∙ word_at-poke_word head (4 + 4 * i) (s.block i) small)
    | inr c ↦ e.entry j (ground arith) (omega arith)
  ];
  before = λ a le.
      e.before a (omega arith) ∙ word_at-poke_ne head (4 + 4 * i) a (s.block i) (inr (omega arith));
}

pub write_blocks-Encoded :
    (k i : ℕ) (head : Block) (s : LogState)
    → i + k ≤ logsize
    → ((j : ℕ) → j < i + k → s.block j < 2 ^ 32)
    → Yields (λ h t. (t ≡ s) × Encoded s head h k i) (write_blocks head k i s)
unfolding write_blocks
write_blocks-Encoded zero i head s fits small =
    yields (refl, record { entry = λ j lo hi. absurd (omega arith); before = λ a le. refl })
write_blocks-Encoded (suc k) i head s fits small =
    let inside : ltb i logsize ≡ true = ground arith in
    rw inside (
      Yields-mono
        (write_blocks-Encoded k (i + 1) (poke_word head (4 + 4 * i) (s.block i)) s (omega arith)
          (λ j lt. small j (omega arith)))
        λ h t (same, e). (same, Encoded-step s head h k i (small i (omega arith)) e))

-- `t` is `s` with the block numbers of header `head` from `i` on, `k` of them.
pub record Decoded (head : Block) (s t : LogState) (k i : ℕ) : Type 0 where
  pub entry : (j : ℕ) → i ≤ j → j < i + k → t.block j ≡ word_at head (4 + 4 * j)
  pub before : (j : ℕ) → j < i → t.block j ≡ s.block j
  pub rest : t ≡ record s { block = t.block }

Decoded-step :
    (head : Block) (s t : LogState) (k i : ℕ)
    → Decoded head
        (record s { block = put_number s.block i (word_at head (4 + 4 * i)) })
        t
        k
        (i + 1)
    → Decoded head s t (suc k) i
Decoded-step head s t k i d = record {
  entry = λ j lo hi. elim (Bool-cases (j == i)) [
    | inl c ↦ let same : j ≡ i = ground arith in rw same (d.before i (omega arith) ∙ ground arith)
    | inr c ↦ d.entry j (ground arith) (omega arith)
  ];
  before = λ j lt. d.before j (omega arith) ∙ ground arith;
  rest = d.rest;
}

pub read_blocks-Decoded :
    (head : Block) (k i : ℕ) (s : LogState)
    → i + k ≤ logsize
    → Yields (λ _ t. Decoded head s t k i) (read_blocks head k i s)
unfolding read_blocks
read_blocks-Decoded head zero i s fits =
    yields (record { entry = λ j lo hi. absurd (omega arith); before = λ j lt. refl; rest = refl })
read_blocks-Decoded head (suc k) i s fits =
    let inside : ltb i logsize ≡ true = ground arith in
    rw inside (
      Yields-mono (read_blocks-Decoded head k (i + 1) _ (omega arith))
        λ _ t d. Decoded-step head s t k i d)

-- `t` is `s` with header `h` in its place, in the cache and on the disk.
pub record HeadWritten (s t : LogState) (h : Block) : Type 0 where
  pub head_n : word_at h 0 ≡ s.n
  pub head_block : (j : ℕ) → j < s.n → word_at h (4 + 4 * j) ≡ s.block j
  pub after : t ≡ record s {
    cache = put_block s.cache s.start h;
    disk = put_block s.disk s.start h;
    history = put_block s.disk s.start h ∷ s.history;
    dirty = put_flag s.dirty s.start false;
  }

pub write_head-HeadWritten :
    (s : LogState)
    → s.n ≤ logsize
    → ((j : ℕ) → j < s.n → s.block j < 2 ^ 32)
    → Yields (λ _ t. (h : Block) × HeadWritten s t h) (write_head s)
unfolding write_head
write_head-HeadWritten s fits small =
    let few : rounds s.n ≡ s.n = ground arith in
    rw few (
      Yields-bind
        (write_blocks-Encoded s.n 0 (poke_word (s.cache s.start) 0 s.n) s (omega arith)
          (λ j lt. small j (omega arith)))
        λ h t (same, e).
          let back : put_block s.cache s.start h s.start ≡ h = rw (==_refl s.start) refl in
          rw (same, back)
            (yields (
              h,
              record {
                head_n = e.before 0 (omega arith) ∙ word_at-poke_word _ 0 s.n (omega arith);
                head_block = λ j lt. e.entry j (omega arith) (omega arith);
                after = refl;
              },
            )))
