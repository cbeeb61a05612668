-- ===== src/Log/Install.antt =====
-- Disks on which a transaction is committed, and install_trans, which brings its blocks home.
use cs.Prelude.{
  ℕ, zero, suc, ◌+◌, ◌*◌, ◌≤◌, ◌<◌, ◌≡◌, refl, inl, inr, Bool, true, false, ◌||◌, List, [], ◌∷◌,
  arith, ◌==◌, ltb, Bool-cases,
}
use cs.Prelude.Run.{Yields, yields, Yields-mono}
use cs.Bytes.{word_at}
use cs.Log.{Disk, LogState, logsize, put_block, put_flag, install_from}

abbrev pub All {ℓ} : {A : Type ℓ} → (A → Type 0) → List A → Type 0
All P [] = Unit {0}
All P (x ∷ xs) = P x × All P xs

-- Block `b` is outside of the log, whose header is block `start`.
abbrev pub is_home : ℕ → ℕ → Bool
is_home start b = ltb b start || ltb (start + logsize) b

-- `b` is one of `k` block numbers from index `i` on.
abbrev pub among : (ℕ → ℕ) → (k i b : ℕ) → Bool
among block zero i b = false
among block (suc k) i b = (block i == b) || among block k (i + 1) b

-- The log on disk `d` holds a committed transaction of `n` blocks; the blocks at home, with those of
-- the log put in place, are those of `target`.
pub record Committed (start n : ℕ) (block : ℕ → ℕ) (target d : Disk) : Type 0 where
  pub head_n : word_at (d start) 0 ≡ n
  pub head_block : (j : ℕ) → j < n → word_at (d start) (4 + 4 * j) ≡ block j
  pub logged : (j : ℕ) → j < n → d (start + j + 1) ≡ target (block j)
  pub homes : (j : ℕ) → j < n → is_home start (block j) ≡ true
  pub others : (b : ℕ) → is_home start b ≡ true → among block n 0 b ≡ false → d b ≡ target b

-- The log on disk `d` is empty, and the blocks at home are those of `target`.
pub record Clean (start : ℕ) (target d : Disk) : Type 0 where
  pub head_n : word_at (d start) 0 ≡ 0
  pub homes : (b : ℕ) → is_home start b ≡ true → d b ≡ target b

pub among_self : (block : ℕ → ℕ) (k i j : ℕ) → i ≤ j → j < i + k → among block k i (block j) ≡ true
among_self block zero i j lo hi = absurd (omega arith)
among_self block (suc k) i j lo hi = elim (Bool-cases (i == j)) [
  | inl e ↦ let same : i ≡ j = ground arith in rw same (ground arith)
  | inr o ↦ ground (arith, among_self block k (i + 1) j (ground arith) (omega arith))
]

-- A home block gets its logged content.
Committed-put :
    (start n : ℕ) (block : ℕ → ℕ) (target d : Disk) (j : ℕ)
    → n ≤ logsize
    → j < n
    → Committed start n block target d
    → Committed start n block target (put_block d (block j) (target (block j)))
Committed-put start n block target d j fits lt c =
    let home = c.homes j lt in
    let apart : (start == block j) ≡ false = ground arith in
    record {
      head_n = rw apart c.head_n;
      head_block = λ i h. rw apart (c.head_block i h);
      logged = λ i h.
          let off : (start + i + 1 == block j) ≡ false = ground arith in rw off (c.logged i h);
      homes = c.homes;
      others = λ b h out. elim (Bool-cases (b == block j)) [
        | inl e ↦ let same : b ≡ block j = ground arith in rw (e, same) refl
        | inr o ↦ rw o (c.others b h out)
      ];
    }

-- Before `k` more rounds of install_trans from `tail` on: those blocks may still be missing at home.
pub record Installing (s : LogState) (target : Disk) (k tail : ℕ) : Type 0 where
  pub disk : Committed s.start s.n s.block target s.disk
  pub cache_log : (j : ℕ) → j < s.n → s.cache (s.start + j + 1) ≡ target (s.block j)
  pub home_done :
      (b : ℕ) → is_home s.start b ≡ true → among s.block k tail b ≡ false → s.disk b ≡ target b

-- What the loop leaves alone.
abbrev pub SameLog : LogState → LogState → Type 0
SameLog s t = t ≡ record s { cache = t.cache; disk = t.disk; history = t.history; dirty = t.dirty }

abbrev installed : LogState → ℕ → LogState
installed s tail =
    let b = s.block tail in
    let d = put_block s.disk b (s.cache (s.start + tail + 1)) in
    record s {
      cache = put_block s.cache b (s.cache (s.start + tail + 1));
      disk = d;
      history = d ∷ s.history;
      dirty = put_flag s.dirty b false;
    }

Installing-step :
    (s : LogState) (target : Disk) (k tail : ℕ)
    → s.n ≤ logsize
    → tail < s.n
    → Installing s target (suc k) tail
    → Installing (installed s tail) target k (tail + 1)
Installing-step s target k tail fits lt i =
    let home = i.disk.homes tail lt in
    record {
      disk =
          rw (i.cache_log tail lt)
            (Committed-put s.start s.n s.block target s.disk tail fits lt i.disk);
      cache_log = λ j h.
          let off : (s.start + j + 1 == s.block tail) ≡ false = ground arith in
          rw off (i.cache_log j h);
      home_done = λ b h out. elim (Bool-cases (b == s.block tail)) [
        | inl e ↦ let same : b ≡ s.block tail = ground arith in rw (e, same) (i.cache_log tail lt)
        | inr o ↦
            let miss : (s.block tail == b) ≡ false = ground arith in
            rw o (i.home_done b h (rw (miss, out) refl))
      ];
    }

module _ (target : Disk) (P : Disk → Type 0) where
  pub install_from-Installing :
      (k tail : ℕ) (s : LogState)
      → tail + k ≡ s.n
      → s.n ≤ logsize
      → ((d : Disk) → Committed s.start s.n s.block target d → P d)
      → Installing s target k tail
      → All P s.history
      → Yields
          (λ _ t. Installing t target 0 s.n × SameLog s t × All P t.history)
          (install_from k tail s)
  unfolding install_from
  install_from-Installing zero tail s e fits good i hist =
      yields
        (record { disk = i.disk; cache_log = i.cache_log; home_done = i.home_done }, refl, hist)
  install_from-Installing (suc k) tail s e fits good i hist =
      let inside : ltb tail logsize ≡ true = ground arith in
      let lt : tail < s.n = omega arith in
      let next = Installing-step s target k tail fits lt i in
      let same : put_block s.cache (s.block tail) (s.cache (s.start + tail + 1)) (s.block tail)
          ≡ s.cache (s.start + tail + 1) =
        ground arith in
      rw (inside, same)
        (Yields-mono
          (install_from-Installing k (tail + 1) (installed s tail) (omega arith) fits good next
            (good _ next.disk, hist))
          λ _ t (a, b, c). (a, b, c))
