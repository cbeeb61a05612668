-- ===== src/Log/Ops.antt =====
-- The calls of log.c around a transaction: begin_op, end_op and log_write. `outstanding` is the bit
-- pattern of the int.
pub mod Begin
pub mod Write
use Prim.Native.String.{String}
use cs.Prelude.{
  ℕ, zero, suc, ◌+◌, ◌*◌, ◌-◌, Bool, true, false, not, ◌||◌, ◌&&◌, ◌==◌, leb, ltb, if◌then◌else◌,
}
use cs.Prelude.Run.{Cmd, ok, panic, fault, out_of_fuel, pure, fetch, modify, ◌>>=◌, ◌>>◌}
use cs.Spinlock
use cs.Spinlock.{Held, within}
use cs.Proc.Table.{add32, sub32, not_positive}
use cs.Log.{LogState, logsize, maxopblocks, put_flag, read_block, write_block, commit}

-- acquire(&log.lock) and release(&log.lock).
unfoldable pub lock_log : Cmd LogState (Unit {0})
lock_log = within (λ s. s.held) (λ s h. record s { held = h }) Spinlock.acquire

unfoldable pub unlock_log : Cmd LogState (Unit {0})
unlock_log = within (λ s. s.held) (λ s h. record s { held = h }) Spinlock.release

abbrev pub panic_when : Bool → String → Cmd LogState (Unit {0})
panic_when true why s = panic why
panic_when false why s = ok tt s

-- sleep(&log, &log.lock): `f` is what happens before the process runs again, with the lock.
abbrev pub sleep_log : (LogState → LogState) → LogState → LogState
sleep_log f s = record (f s) { held = s.held }

-- Neither a commit in progress nor the log too full for one more call.
abbrev pub can_begin : LogState → Bool
can_begin s = not s.committing && leb (s.n + (s.outstanding + 1) * maxopblocks) logsize

-- The loop of begin_op, at most `k` rounds; `elsewhere i` is what happens in the sleep of round i.
unfoldable pub begin_loop :
    (elsewhere : ℕ → LogState → LogState) → (k i : ℕ) → Cmd LogState (Unit {0})
begin_loop elsewhere zero i = λ _. out_of_fuel
begin_loop elsewhere (suc k) i = do
  s ← fetch
  if can_begin s
      then (do modify (λ s. record s { outstanding = s.outstanding + 1 }); unlock_log)
      else (do modify (sleep_log (elsewhere i)); begin_loop elsewhere k (i + 1))

unfoldable pub begin_op : (elsewhere : ℕ → LogState → LogState) → ℕ → Cmd LogState (Unit {0})
begin_op elsewhere k = do lock_log; begin_loop elsewhere k 0

abbrev wakeup_log : Cmd LogState (Unit {0})
wakeup_log = modify (λ s. record s { wakeups = s.wakeups + 1 })

-- The end of end_op for the last outstanding call.
unfoldable pub end_commit : Cmd LogState (Unit {0})
end_commit = do
  commit
  lock_log
  modify (λ s. record s { committing = false })
  wakeup_log
  unlock_log

unfoldable pub end_op : Cmd LogState (Unit {0})
end_op = do
  lock_log
  modify (λ s. record s { outstanding = sub32 s.outstanding 1 })
  s ← fetch
  panic_when s.committing "log.committing"
  if s.outstanding == 0
      then (do modify (λ s. record s { committing = true }); unlock_log; end_commit)
      else (do wakeup_log; unlock_log)

-- The loop of log_write from index `i` on, `k` rounds: the first index with block `b`, or the end.
unfoldable pub find_block : (k i b : ℕ) → Cmd LogState ℕ
find_block zero i b = pure i
find_block (suc k) i b = do c ← read_block i; if c == b then pure i else find_block k (i + 1) b

-- log_write of the cached block `b`.
unfoldable pub log_write : ℕ → Cmd LogState (Unit {0})
log_write b = do
  s ← fetch
  panic_when (leb logsize s.n || leb s.size (s.n + 1)) "too big a transaction"
  panic_when (not_positive s.outstanding) "log_write outside of trans"
  lock_log
  i ← find_block s.n 0 b
  write_block i b
  modify (λ s. if i == s.n then record s { n = s.n + 1 } else s)
  modify (λ s. record s { dirty = put_flag s.dirty b true })
  unlock_log
