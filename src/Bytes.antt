-- ===== src/Bytes.antt =====
-- string.c: the byte and string functions of the kernel. Memory is a function from addresses to
-- bytes, and so is an array from its indices. Ranges do not wrap around the address space.
pub mod Move
pub mod Fill
pub mod Copy
pub mod Compare
pub mod Words
use cs.Prelude.{
  ℕ, zero, suc, ◌+◌, ◌-◌, ◌*◌, ◌/◌, ◌%◌, ◌^◌, ◌≡◌, Bool, true, false, ◌&&◌, not, ◌==◌, ltb, leb,
  if◌then◌else◌,
}
use cs.Prelude.Int.{ℤ, pos, negsuc}

abbrev pub Memory : Type 0
Memory = ℕ → ℕ

-- One byte written.
abbrev pub poke : Memory → ℕ → ℕ → Memory
poke m a v b = if b == a then v else m b

-- `while(n-- > 0) *d++ = *s++;`
unfoldable pub copy_up : ℕ → ℕ → ℕ → Memory → Memory
copy_up zero d s m = m
copy_up (suc n) d s m = copy_up n (d + 1) (s + 1) (poke m d (m s))

-- `while(n-- > 0) *--d = *--s;` from the ends d + n and s + n.
unfoldable pub copy_down : ℕ → ℕ → ℕ → Memory → Memory
copy_down zero d s m = m
copy_down (suc n) d s m = copy_down n d s (poke m (d + n) (m (s + n)))

unfoldable pub memmove : (dst src n : ℕ) → Memory → Memory
memmove dst src n m =
    if ltb src dst && ltb dst (src + n) then copy_down n dst src m else copy_up n dst src m

unfoldable pub memcpy : (dst src n : ℕ) → Memory → Memory
unfolding memmove
memcpy dst src n m = memmove dst src n m

-- stosb and stosl of x86.h: n bytes, or n little-endian words.
unfoldable pub stosb : (dst c n : ℕ) → Memory → Memory
stosb dst c zero m = m
stosb dst c (suc n) m = stosb (dst + 1) c n (poke m dst (c % 256))

abbrev pub poke_word : Memory → ℕ → ℕ → Memory
poke_word m a w =
    poke (poke (poke (poke m a (w % 256)) (a + 1) (w / 256 % 256)) (a + 2) (w / 65536 % 256))
      (a + 3) (w / 16777216 % 256)

-- `*(uint*)a`, little-endian.
unfoldable pub word_at : Memory → ℕ → ℕ
word_at m a = m a + m (a + 1) * 256 + m (a + 2) * 65536 + m (a + 3) * 16777216

unfoldable pub stosl : (dst w n : ℕ) → Memory → Memory
stosl dst w zero m = m
stosl dst w (suc n) m = stosl (dst + 4) w n (poke_word m dst w)

-- `c` is the bit pattern of the int; the shifted bytes do not overlap, so that `|` is a sum.
unfoldable pub memset : (dst c n : ℕ) → Memory → Memory
memset dst c n m =
    if (dst % 4 == 0) && (n % 4 == 0)
    then stosl dst (c % 256 * 16777216 + c % 256 * 65536 + c % 256 * 256 + c % 256) (n / 4) m
    else stosb dst c n m

-- The difference of two bytes, as an int.
abbrev pub difference : ℕ → ℕ → ℤ
difference a b = if leb b a then pos (a - b) else negsuc (b - a - 1)

unfoldable pub memcmp : Memory → (a b n : ℕ) → ℤ
memcmp m a b zero = pos 0
memcmp m a b (suc n) =
    let rest = memcmp m (a + 1) (b + 1) n in if m a == m b then rest else difference (m a) (m b)

unfoldable pub strncmp : Memory → (p q n : ℕ) → ℤ
strncmp m p q zero = pos 0
strncmp m p q (suc n) =
    let rest = strncmp m (p + 1) (q + 1) n in
    if not (m p == 0) && (m p == m q) then rest else difference (m p) (m q)

-- The second loop of strncpy: `while(n-- > 0) *s++ = 0;`
unfoldable pub pad : ℕ → ℕ → Memory → Memory
pad zero i dst = dst
pad (suc n) i dst = pad n (i + 1) (poke dst i 0)

-- strncpy and safestrcpy between separate arrays; the loops stand at index i.
unfoldable pub strncpy_from : ℕ → ℕ → Memory → Memory → Memory
unfolding pad
strncpy_from zero i src dst = dst
strncpy_from (suc n) i src dst =
    let dst' = poke dst i (src i) in
    let rest = strncpy_from n (i + 1) src dst' in if src i == 0 then pad n (i + 1) dst' else rest

unfoldable pub strncpy : (src : Memory) → ℕ → (dst : Memory) → Memory
unfolding strncpy_from
strncpy src n dst = strncpy_from n 0 src dst

-- With n more bytes that may be copied before the final 0.
unfoldable pub safestrcpy_from : ℕ → ℕ → Memory → Memory → Memory
safestrcpy_from zero i src dst = poke dst i 0
safestrcpy_from (suc n) i src dst =
    let dst' = poke dst i (src i) in
    let rest = safestrcpy_from n (i + 1) src dst' in
    if src i == 0 then poke dst' (i + 1) 0 else rest

unfoldable pub safestrcpy : (src : Memory) → ℕ → (dst : Memory) → Memory
unfolding safestrcpy_from
safestrcpy src zero dst = dst
safestrcpy src (suc n) dst = safestrcpy_from n 0 src dst
