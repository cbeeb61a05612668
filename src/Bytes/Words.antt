-- ===== src/Bytes/Words.antt =====
-- Words in memory: what a word that was written reads as.
use cs.Prelude.{ℕ, ◌+◌, ◌*◌, ◌/◌, ◌%◌, ◌^◌, ◌≤◌, ◌<◌, ◌≡◌, ◌⊎◌, arith}
use cs.Bytes.{Memory, poke_word, word_at}

split_word :
    (w : ℕ)
    → w < 2 ^ 32
    → w % 256 + w / 256 % 256 * 256 + w / 65536 % 256 * 65536 + w / 16777216 % 256 * 16777216 ≡ w
split_word w h = omega arith

pub word_at-poke_word : (m : Memory) (a w : ℕ) → w < 2 ^ 32 → word_at (poke_word m a w) a ≡ w
unfolding word_at
word_at-poke_word m a w h = ground (arith, split_word w h)

pub word_at-poke_ne :
    (m : Memory) (a b w : ℕ) → (a + 4 ≤ b) ⊎ (b + 4 ≤ a) → word_at (poke_word m a w) b ≡ word_at m b
unfolding word_at
word_at-poke_ne m a b w h = ground arith
