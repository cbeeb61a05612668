-- ===== src/Log.antt =====
-- The write-ahead log of log.c, on one device. `cache b` is what bread of block b returns the data
-- of: the cached block, or the one on the disk. bwrite writes a cached block to the disk; `history`
-- has every disk that a write has left, the last first, and a crash leaves one of them. A block is
-- written whole or not at all.
pub mod Head
pub mod Install
pub mod Recover
pub mod Commit
pub mod Ops
mod Tests
use Prim.Native.String.{String}
use cs.Prelude.{
  ℕ, zero, suc, ◌+◌, ◌*◌, ◌-◌, ◌^◌, Bool, true, false, not, ◌||◌, List, [], ◌∷◌, ◌==◌, leb, ltb,
  if◌then◌else◌,
}
use cs.Prelude.Run.{Cmd, ok, panic, fault, out_of_fuel, pure, fetch, modify, ◌>>=◌, ◌>>◌}
use cs.Bytes.{Memory, word_at, poke_word}
use cs.Spinlock
use cs.Spinlock.{Held}

abbrev pub logsize : ℕ
logsize = 30

abbrev pub maxopblocks : ℕ
maxopblocks = 10

-- The data of a block. memmove of BSIZE bytes copies it all.
abbrev pub Block : Type 0
Block = Memory

abbrev pub Disk : Type 0
Disk = ℕ → Block

-- struct log with its header in memory, `n` and `block`, and the blocks of the device. `dirty` is the
-- flag B_DIRTY of the cached blocks; `wakeups` counts the calls of wakeup(&log).
pub record LogState : Type 0 where
  pub held : Held
  pub start : ℕ
  pub size : ℕ
  pub outstanding : ℕ
  pub committing : Bool
  pub n : ℕ
  pub block : ℕ → ℕ
  pub cache : Disk
  pub disk : Disk
  pub history : List Disk
  pub dirty : ℕ → Bool
  pub wakeups : ℕ

abbrev pub put_block : Disk → ℕ → Block → Disk
put_block d b v c = if c == b then v else d c

abbrev pub put_flag : (ℕ → Bool) → ℕ → Bool → ℕ → Bool
put_flag f b v c = if c == b then v else f c

abbrev pub put_number : (ℕ → ℕ) → ℕ → ℕ → ℕ → ℕ
put_number f i v j = if j == i then v else f j

-- bread: the data of block `b`.
abbrev pub bread : ℕ → Cmd LogState Block
bread b s = ok (s.cache b) s

-- New data in the cached block.
abbrev pub write_data : ℕ → Block → Cmd LogState (Unit {0})
write_data b v s = ok tt (record s { cache = put_block s.cache b v })

abbrev pub bwrite : ℕ → Cmd LogState (Unit {0})
bwrite b s =
    let d = put_block s.disk b (s.cache b) in
    ok tt (record s { disk = d; history = d ∷ s.history; dirty = put_flag s.dirty b false })

-- log.lh.block[i], a fault outside of the array.
abbrev pub read_block : ℕ → Cmd LogState ℕ
read_block i s = if ltb i logsize then ok (s.block i) s else fault

abbrev pub write_block : ℕ → ℕ → Cmd LogState (Unit {0})
write_block i b s =
    if ltb i logsize then ok tt (record s { block = put_number s.block i b }) else fault

-- The rounds of `for (i = 0; i < n; i++)` for an int with this bit pattern.
abbrev pub rounds : ℕ → ℕ
rounds n = if ltb n (2 ^ 31) then n else 0

-- The loop of install_trans from `tail` on, `k` rounds.
unfoldable pub install_from : ℕ → ℕ → Cmd LogState (Unit {0})
install_from zero tail = pure tt
install_from (suc k) tail = do
  s ← fetch
  lbuf ← bread (s.start + tail + 1)
  b ← read_block tail
  write_data b lbuf
  bwrite b
  install_from k (tail + 1)

unfoldable pub install_trans : Cmd LogState (Unit {0})
install_trans = do s ← fetch; install_from (rounds s.n) 0

-- log.lh.block[i] = lh->block[i], from `i` on, `k` rounds.
unfoldable pub read_blocks : Block → ℕ → ℕ → Cmd LogState (Unit {0})
read_blocks head zero i = pure tt
read_blocks head (suc k) i = do write_block i (word_at head (4 + 4 * i)); read_blocks head k (i + 1)

unfoldable pub read_head : Cmd LogState (Unit {0})
read_head = do
  s ← fetch
  head ← bread s.start
  modify (λ s. record s { n = word_at head 0 })
  read_blocks head (rounds (word_at head 0)) 0

-- hb->block[i] = log.lh.block[i], from `i` on, `k` rounds.
unfoldable pub write_blocks : Block → ℕ → ℕ → Cmd LogState Block
write_blocks head zero i = pure head
write_blocks head (suc k) i = do
  b ← read_block i
  write_blocks (poke_word head (4 + 4 * i) b) k (i + 1)

unfoldable pub write_head : Cmd LogState (Unit {0})
write_head = do
  s ← fetch
  head ← bread s.start
  head ← write_blocks (poke_word head 0 s.n) (rounds s.n) 0
  write_data s.start head
  bwrite s.start

unfoldable pub recover_from_log : Cmd LogState (Unit {0})
recover_from_log = do read_head; install_trans; modify (λ s. record s { n = 0 }); write_head

-- initlog, with what readsb has read: `start` is sb.logstart and `size` is sb.nlog. The header is 124
-- bytes long, less than BSIZE.
unfoldable pub initlog : (start size : ℕ) → Cmd LogState (Unit {0})
initlog start size = do modify (λ s. record s { start = start; size = size }); recover_from_log

-- The loop of write_log from `tail` on, `k` rounds.
unfoldable pub write_from : ℕ → ℕ → Cmd LogState (Unit {0})
write_from zero tail = pure tt
write_from (suc k) tail = do
  s ← fetch
  b ← read_block tail
  from ← bread b
  write_data (s.start + tail + 1) from
  bwrite (s.start + tail + 1)
  write_from k (tail + 1)

unfoldable pub write_log : Cmd LogState (Unit {0})
write_log = do s ← fetch; write_from (rounds s.n) 0

unfoldable pub commit : Cmd LogState (Unit {0})
commit = do
  s ← fetch
  if rounds s.n == 0
      then pure tt
      else (do write_log; write_head; install_trans; modify (λ s. record s { n = 0 }); write_head)
