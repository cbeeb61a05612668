-- ===== src/Fs.antt =====
-- The free blocks of fs.c: balloc and bfree over the bitmap on the disk. `cache b` is the data that bread
-- of block b returns; `logged` has the blocks given to log_write, the last first.
pub mod Bits
pub mod Bitmap
pub mod Cases
mod Tests
use Prim.Native.Nat.{bit_and, bit_or}
use Prim.Native.String.{String}
use cs.Prelude.{
  ℕ, zero, suc, ◌+◌, ◌-◌, ◌*◌, ◌/◌, ◌%◌, ◌^◌, Bool, true, false, not, ◌&&◌, Option, none, some,
  List, ◌∷◌, ◌==◌, ltb, if◌then◌else◌,
}
use cs.Prelude.Run.{Cmd, ok, panic, pure, fetch, modify, ◌>>=◌, ◌>>◌}
use cs.Bytes.{Memory, memset}

abbrev pub bsize : ℕ
bsize = 512

-- Bits of a block of the bitmap.
abbrev pub bpb : ℕ
bpb = 4096

-- The part of the file system that is concerned: the superblock's `size` and `bmapstart`.
pub record Fs : Type 0 where
  pub cache : ℕ → Memory
  pub size : ℕ
  pub bmapstart : ℕ
  pub logged : List ℕ

abbrev pub bblock : Fs → ℕ → ℕ
bblock s b = b / bpb + s.bmapstart

-- The mask `1 << (bi % 8)` and the byte of bit `bi`.
abbrev pub mask : ℕ → ℕ
mask bi = 2 ^ (bi % 8)

abbrev pub is_clear : Memory → ℕ → Bool
is_clear bits bi = bit_and (bits (bi / 8)) (mask bi) == 0

abbrev pub set_byte : Memory → ℕ → ℕ → Memory
set_byte bits i v j = if j == i then v else bits j

-- New data in the cached block, and log_write.
abbrev pub write_logged : ℕ → Memory → Cmd Fs (Unit {0})
write_logged b v =
    modify (λ s. record s { cache = λ c. if c == b then v else s.cache c; logged = b ∷ s.logged })

unfoldable pub bzero : ℕ → Cmd Fs (Unit {0})
bzero b = do s ← fetch; write_logged b (memset 0 0 bsize (s.cache b))

-- The inner loop of balloc from bit `bi` on, at most `k` rounds: the first block whose bit is clear.
unfoldable pub find_clear : Fs → (k base bi : ℕ) → Option ℕ
find_clear s zero base bi = none
find_clear s (suc k) base bi =
    let rest = find_clear s k base (bi + 1) in
    if ltb bi bpb && ltb (base + bi) s.size
    then (if is_clear (s.cache (bblock s base)) bi then some (base + bi) else rest)
    else none

unfoldable pub clear_in : Fs → ℕ → Option ℕ
unfolding find_clear
clear_in s base = find_clear s (bpb + 1) base 0

-- The outer loop from `base` on, `k` rounds.
unfoldable pub search : Fs → (k base : ℕ) → Option ℕ
search s zero base = none
search s (suc k) base =
    let rest = search s k (base + bpb) in
    if ltb base s.size then elim (clear_in s base) [ none ↦ rest | some b ↦ some b ] else none

-- bp->data[bi/8] |= m of the bit for block `b`.
unfoldable pub mark : ℕ → Cmd Fs (Unit {0})
mark b = do
  s ← fetch
  let bi = b % bpb
  let bits = s.cache (bblock s b)
  write_logged (bblock s b) (set_byte bits (bi / 8) (bit_or (bits (bi / 8)) (mask bi)))

-- The end of balloc with what the loops have found.
abbrev pub take_block : Option ℕ → Cmd Fs ℕ
take_block none = λ _. panic "balloc: out of blocks"
take_block (some b) = do mark b; bzero b; pure b

unfoldable pub balloc : Cmd Fs ℕ
balloc = do s ← fetch; take_block (search s (s.size / bpb + 1) 0)

-- `& ~m` of a byte.
unfoldable pub bfree : ℕ → Cmd Fs (Unit {0})
bfree b = do
  s ← fetch
  let bi = b % bpb
  let bits = s.cache (bblock s b)
  if is_clear bits bi
      then (λ _. panic "freeing free block")
      else write_logged (bblock s b)
          (set_byte bits (bi / 8) (bit_and (bits (bi / 8)) (255 - mask bi)))
