-- ===== src/Bytes/Copy.antt =====
-- strncpy and safestrcpy between separate arrays.
use cs.Prelude.{ℕ, zero, suc, ◌+◌, ◌≤◌, ◌≡◌, ◌&&◌, arith, ◌==◌, ltb, leb, if◌then◌else◌}
use cs.Bytes.{Memory, poke, pad, strncpy_from, strncpy, safestrcpy_from, safestrcpy}

-- How many bytes stand before the first 0 from index i on, n at most.
unfoldable pub text_length : ℕ → ℕ → Memory → ℕ
text_length zero i src = 0
text_length (suc n) i src = if src i == 0 then 0 else suc (text_length n (i + 1) src)

pub text_length-le : (n i : ℕ) (src : Memory) → text_length n i src ≤ n
unfolding text_length
text_length-le zero i src = omega arith
text_length-le (suc n) i src = ground (arith, text_length-le n (i + 1) src)

pad-zero :
    (n i : ℕ) (dst : Memory) (k : ℕ)
    → pad n i dst k ≡ (if leb i k && ltb k (i + n) then 0 else dst k)
unfolding pad
pad-zero zero i dst k = ground arith
pad-zero (suc n) i dst k = ground (arith, pad-zero n (i + 1) (poke dst i 0) k)

strncpy_from-text :
    (n i : ℕ) (src dst : Memory) (k : ℕ)
    → strncpy_from n i src dst k ≡ (
        if ltb k i
        then dst k
        else if ltb k (i + text_length n i src)
        then src k
        else if ltb k (i + n)
        then 0
        else dst k)
unfolding strncpy_from text_length
strncpy_from-text zero i src dst k = ground arith
strncpy_from-text (suc n) i src dst k = ground (
  arith,
  strncpy_from-text n (i + 1) src (poke dst i (src i)) k,
  pad-zero n (i + 1) (poke dst i (src i)) k,
  text_length-le n (i + 1) src,
)

-- strncpy copies the text up to its first 0 and fills the rest of the n bytes with 0.
pub strncpy-text :
    (n : ℕ) (src dst : Memory) (k : ℕ)
    → strncpy src n dst k
      ≡ (if ltb k (text_length n 0 src) then src k else if ltb k n then 0 else dst k)
unfolding strncpy
strncpy-text n src dst k = ground (arith, strncpy_from-text n 0 src dst k)

safestrcpy_from-text :
    (n i : ℕ) (src dst : Memory) (k : ℕ)
    → safestrcpy_from n i src dst k ≡ (
        if ltb k i
        then dst k
        else if ltb k (i + text_length n i src)
        then src k
        else if k == i + text_length n i src
        then 0
        else if (k == i + text_length n i src + 1) && ltb (text_length n i src) n
        then 0
        else dst k)
unfolding safestrcpy_from text_length
safestrcpy_from-text zero i src dst k = ground arith
safestrcpy_from-text (suc n) i src dst k =
    ground (
      arith,
      safestrcpy_from-text n (i + 1) src (poke dst i (src i)) k,
      text_length-le n (i + 1) src,
    )

-- safestrcpy copies the text up to its first 0, but n - 1 bytes at most, and puts a 0 behind it; where
-- the text was shorter than n - 1 one more 0 follows, and all other bytes stay.
pub safestrcpy-text :
    (n : ℕ) (src dst : Memory) (k : ℕ)
    → safestrcpy src (suc n) dst k ≡ (
        if ltb k (text_length n 0 src)
        then src k
        else if k == text_length n 0 src
        then 0
        else if (k == text_length n 0 src + 1) && ltb (text_length n 0 src) n
        then 0
        else dst k)
unfolding safestrcpy
safestrcpy-text n src dst k = ground (arith, safestrcpy_from-text n 0 src dst k)
