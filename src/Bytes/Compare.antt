-- ===== src/Bytes/Compare.antt =====
-- memcmp and strncmp return 0 exactly for equal ranges and texts.
use cs.Prelude.{ℕ, zero, suc, ◌+◌, ◌≡◌, ◌↔◌, Bool, true, false, ◌&&◌, arith, ◌==◌, if◌then◌else◌}
use cs.Prelude.Int.{pos}
use cs.Bytes.{Memory, memcmp, strncmp}

-- Whether n bytes from a on and from b on are the same.
unfoldable pub same_bytes : Memory → ℕ → ℕ → ℕ → Bool
same_bytes m a b zero = true
same_bytes m a b (suc n) = (m a == m b) && same_bytes m (a + 1) (b + 1) n

-- The same for two texts, which end at a 0 or after n bytes.
unfoldable pub same_text : Memory → ℕ → ℕ → ℕ → Bool
same_text m p q zero = true
same_text m p q (suc n) =
    let rest = same_text m (p + 1) (q + 1) n in
    if m p == m q then (if m p == 0 then true else rest) else false

-- memcmp returns 0 exactly if the two ranges hold the same bytes.
pub memcmp_zero :
    (n : ℕ) (m : Memory) (a b : ℕ) → (memcmp m a b n ≡ pos 0) ↔ (same_bytes m a b n ≡ true)
unfolding memcmp same_bytes
memcmp_zero zero m a b = ground arith
memcmp_zero (suc n) m a b = ground (arith, memcmp_zero n m (a + 1) (b + 1))

-- strncmp returns 0 exactly if the two texts are the same, up to n bytes.
pub strncmp_zero :
    (n : ℕ) (m : Memory) (p q : ℕ) → (strncmp m p q n ≡ pos 0) ↔ (same_text m p q n ≡ true)
unfolding strncmp same_text
strncmp_zero zero m p q = ground arith
strncmp_zero (suc n) m p q = ground (arith, strncmp_zero n m (p + 1) (q + 1))
