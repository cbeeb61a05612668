-- ===== src/Bio.antt =====
-- The buffer cache of bio.c over the disk in memory of memide.c. Buffer i of bcache.buf is at the
-- pointer i + 1, and bcache.head at 0. The flags of a buffer are apart, and so are its two links.
pub mod Ring
pub mod Get
pub mod Cached
pub mod Read
pub mod Write
pub mod Release
pub mod Init
mod Tests
use Prim.Native.String.{String}
use cs.Prelude.{
  ℕ, zero, suc, ◌+◌, ◌^◌, ◌-◌, Bool, true, false, not, ◌||◌, ◌&&◌, List, ◌∷◌, ◌==◌, leb,
  if◌then◌else◌,
}
use cs.Prelude.Run.{Cmd, ok, panic, out_of_fuel, pure, fetch, modify, ◌>>=◌, ◌>>◌}
use cs.Bytes.{Memory}
use cs.Spinlock
use cs.Spinlock.{Held, within}

abbrev pub nbuf : ℕ
nbuf = 30

abbrev pub head : ℕ
head = 0

-- struct buf without its links.
pub record Buf : Type 0 where
  pub busy : Bool
  pub valid : Bool
  pub dirty : Bool
  pub dev : ℕ
  pub blockno : ℕ
  pub data_ : Memory

-- bcache with the blocks of the disk; `woken` has the buffers on which wakeup has been called.
pub record Bcache : Type 0 where
  pub held : Held
  pub next : ℕ → ℕ
  pub prev : ℕ → ℕ
  pub buf : ℕ → Buf
  pub disk : ℕ → Memory
  pub disksize : ℕ
  pub woken : List ℕ
  pub sleeps : ℕ

abbrev pub set_at {ℓ} : {A : Type ℓ} → (ℕ → A) → ℕ → A → ℕ → A
set_at f a v b = if b == a then v else f b

abbrev pub write_buf : ℕ → (Buf → Buf) → Cmd Bcache (Unit {0})
write_buf b f = modify (λ s. record s { buf = set_at s.buf b (f (s.buf b)) })

-- acquire(&bcache.lock) and release(&bcache.lock).
unfoldable pub lock_cache : Cmd Bcache (Unit {0})
lock_cache = within (λ s. s.held) (λ s h. record s { held = h }) Spinlock.acquire

unfoldable pub unlock_cache : Cmd Bcache (Unit {0})
unlock_cache = within (λ s. s.held) (λ s h. record s { held = h }) Spinlock.release

abbrev pub panic_unless : Bool → String → Cmd Bcache (Unit {0})
panic_unless true why s = ok tt s
panic_unless false why s = panic why

-- Buffer `b` in front of the list.
unfoldable pub link_front : ℕ → Cmd Bcache (Unit {0})
link_front b = do
  modify (λ s. record s { next = set_at s.next b (s.next head) })
  modify (λ s. record s { prev = set_at s.prev b head })
  modify (λ s. record s { prev = set_at s.prev (s.next head) b })
  modify (λ s. record s { next = set_at s.next head b })

-- The loop of binit from buffer `b` on, `k` rounds; -1 as a uint is the device of an unused buffer.
unfoldable pub link_all : (k b : ℕ) → Cmd Bcache (Unit {0})
link_all zero b = pure tt
link_all (suc k) b = do
  link_front b
  write_buf b (λ f. record f { dev = 2 ^ 32 - 1 })
  link_all k (b + 1)

unfoldable pub binit : Cmd Bcache (Unit {0})
binit = do
  modify (λ s. record s { prev = set_at s.prev head head; next = set_at s.next head head })
  link_all nbuf 1

-- Both loops of bget, from `b` on along the links: the first buffer that passes the test, or the head.
unfoldable pub find : (Buf → Bool) → (Bcache → ℕ → ℕ) → (k b : ℕ) → Cmd Bcache ℕ
find test links zero b = λ _. out_of_fuel
find test links (suc k) b = do
  s ← fetch
  if b == head then pure head else if test (s.buf b) then pure b else find test links k (links s b)

abbrev pub is_block : (dev blockno : ℕ) → Buf → Bool
is_block dev blockno f = (f.dev == dev) && (f.blockno == blockno)

-- Neither busy nor dirty.
abbrev pub is_clean : Buf → Bool
is_clean f = not f.busy && not f.dirty

-- The rest of bget for a block that is not cached.
unfoldable pub recycle : (dev blockno : ℕ) → Cmd Bcache ℕ
recycle dev blockno = do
  s ← fetch
  b ← find is_clean (λ s. s.prev) (nbuf + 1) (s.prev head)
  panic_unless (not (b == head)) "bget: no buffers"
  write_buf b
      (λ f. record f { dev = dev; blockno = blockno; busy = true; valid = false; dirty = false })
  unlock_cache
  pure b

-- Number i of the sleeps: `elsewhere i` is what happens before the process runs again, with the lock.
abbrev pub sleep_cache : (ℕ → Bcache → Bcache) → Cmd Bcache (Unit {0})
sleep_cache elsewhere =
    modify (λ s. record (elsewhere s.sleeps s) { held = s.held; sleeps = s.sleeps + 1 })

-- bget from the label loop on, at most `k` rounds.
unfoldable pub get_loop : (ℕ → Bcache → Bcache) → (k dev blockno : ℕ) → Cmd Bcache ℕ
get_loop elsewhere zero dev blockno = λ _. out_of_fuel
get_loop elsewhere (suc k) dev blockno = do
  s ← fetch
  b ← find (is_block dev blockno) (λ s. s.next) (nbuf + 1) (s.next head)
  if b == head
      then recycle dev blockno
      else if not (s.buf b).busy
      then (do write_buf b (λ f. record f { busy = true }); unlock_cache; pure b)
      else (do sleep_cache elsewhere; get_loop elsewhere k dev blockno)

unfoldable pub bget : (ℕ → Bcache → Bcache) → (k dev blockno : ℕ) → Cmd Bcache ℕ
bget elsewhere k dev blockno = do lock_cache; get_loop elsewhere k dev blockno

-- iderw of memide.c.
unfoldable pub iderw : ℕ → Cmd Bcache (Unit {0})
iderw b = do
  s ← fetch
  panic_unless (s.buf b).busy "iderw: buf not busy"
  panic_unless (not ((s.buf b).valid && not (s.buf b).dirty)) "iderw: nothing to do"
  panic_unless ((s.buf b).dev == 1) "iderw: request not for disk 1"
  panic_unless (not (leb s.disksize (s.buf b).blockno)) "iderw: block out of range"
  if (s.buf b).dirty
      then (do
        write_buf b (λ f. record f { dirty = false })
        modify (λ s. record s { disk = set_at s.disk (s.buf b).blockno (s.buf b).data_ }))
      else modify (λ s. record s {
        buf = set_at s.buf b (record (s.buf b) { data_ = s.disk (s.buf b).blockno });
      })
  write_buf b (λ f. record f { valid = true })

unfoldable pub bread : (ℕ → Bcache → Bcache) → (k dev blockno : ℕ) → Cmd Bcache ℕ
bread elsewhere k dev blockno = do
  b ← bget elsewhere k dev blockno
  s ← fetch
  if not (s.buf b).valid then iderw b else pure tt
  pure b

unfoldable pub bwrite : ℕ → Cmd Bcache (Unit {0})
bwrite b = do
  s ← fetch
  panic_unless (s.buf b).busy "bwrite"
  write_buf b (λ f. record f { dirty = true })
  iderw b

unfoldable pub brelse : ℕ → Cmd Bcache (Unit {0})
brelse b = do
  s ← fetch
  panic_unless (s.buf b).busy "brelse"
  lock_cache
  modify (λ s. record s { prev = set_at s.prev (s.next b) (s.prev b) })
  modify (λ s. record s { next = set_at s.next (s.prev b) (s.next b) })
  link_front b
  write_buf b (λ f. record f { busy = false })
  modify (λ s. record s { woken = b ∷ s.woken })
  unlock_cache
