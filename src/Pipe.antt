-- ===== src/Pipe.antt =====
-- pipe.c: pipeclose, pipewrite and piperead on one pipe. `killed` is proc->killed of the process that
-- calls; `nread`, `nwrite` and the argument `n` are bit patterns of 32 bits.
pub mod Queue
pub mod Write
pub mod Read
mod Tests
use cs.Prelude.{
  ℕ, zero, suc, ◌+◌, ◌-◌, ◌%◌, ◌^◌, Bool, true, false, not, ◌||◌, ◌&&◌, ◌==◌, ltb, if◌then◌else◌,
}
use cs.Prelude.Int.{ℤ, pos, negsuc, to_int}
use cs.Prelude.Run.{Cmd, ok, out_of_fuel, pure, fetch, modify, ◌>>=◌, ◌>>◌}
use cs.Spinlock
use cs.Spinlock.{Held, within}
use cs.Proc.Table.{add32}

abbrev pub pipesize : ℕ
pipesize = 512

-- struct pipe. `woken_readers` and `woken_writers` count the calls of wakeup(&p->nread) and
-- wakeup(&p->nwrite), and `sleeps` those of sleep; `freed` is set by kfree.
pub record Pipe : Type 0 where
  pub held : Held
  pub data_ : ℕ → ℕ
  pub nread : ℕ
  pub nwrite : ℕ
  pub readopen : Bool
  pub writeopen : Bool
  pub killed : Bool
  pub woken_readers : ℕ
  pub woken_writers : ℕ
  pub sleeps : ℕ
  pub freed : Bool

-- acquire(&p->lock) and release(&p->lock).
unfoldable pub lock_pipe : Cmd Pipe (Unit {0})
lock_pipe = within (λ s. s.held) (λ s h. record s { held = h }) Spinlock.acquire

unfoldable pub unlock_pipe : Cmd Pipe (Unit {0})
unlock_pipe = within (λ s. s.held) (λ s h. record s { held = h }) Spinlock.release

abbrev pub wake_readers : Cmd Pipe (Unit {0})
wake_readers = modify (λ s. record s { woken_readers = s.woken_readers + 1 })

abbrev pub wake_writers : Cmd Pipe (Unit {0})
wake_writers = modify (λ s. record s { woken_writers = s.woken_writers + 1 })

-- What pipealloc makes of the memory of a new pipe.
abbrev pub new_pipe : Pipe → Pipe
new_pipe s = record s {
  held = record s.held { holding = false };
  readopen = true;
  writeopen = true;
  nwrite = 0;
  nread = 0;
}

unfoldable pub pipeclose : Bool → Cmd Pipe (Unit {0})
pipeclose writable = do
  lock_pipe
  if writable
      then (do modify (λ s. record s { writeopen = false }); wake_readers)
      else (do modify (λ s. record s { readopen = false }); wake_writers)
  s ← fetch
  if not s.readopen && not s.writeopen
      then (do unlock_pipe; modify (λ s. record s { freed = true }))
      else unlock_pipe

-- Number i of the sleeps: `elsewhere i` is what happens before the process runs again, with the lock.
abbrev pub sleep_pipe : (ℕ → Pipe → Pipe) → Cmd Pipe (Unit {0})
sleep_pipe elsewhere =
    modify (λ s. record (elsewhere s.sleeps s) { held = s.held; sleeps = s.sleeps + 1 })

-- The inner loop of pipewrite, at most `k` rounds: whether there is room for a byte.
unfoldable pub wait_room : (ℕ → Pipe → Pipe) → ℕ → Cmd Pipe Bool
wait_room elsewhere zero = λ _. out_of_fuel
wait_room elsewhere (suc k) = do
  s ← fetch
  if s.nwrite == add32 s.nread pipesize
      then (if not s.readopen || s.killed
          then pure false
          else (do wake_readers; sleep_pipe elsewhere; wait_room elsewhere k))
      else pure true

-- p->data[p->nwrite++ % PIPESIZE] = v.
unfoldable pub put_byte : ℕ → Cmd Pipe (Unit {0})
put_byte v = modify (λ s. record s {
  data_ = λ j. if j == s.nwrite % pipesize then v else s.data_ j;
  nwrite = add32 s.nwrite 1;
})

-- The loop of pipewrite from index `i` on, `m` rounds: whether all bytes are written.
unfoldable pub write_bytes : (ℕ → Pipe → Pipe) → ℕ → (ℕ → ℕ) → (m i : ℕ) → Cmd Pipe Bool
write_bytes elsewhere k addr zero i = pure true
write_bytes elsewhere k addr (suc m) i = do
  room ← wait_room elsewhere k
  if room then (do put_byte (addr i); write_bytes elsewhere k addr m (i + 1)) else pure false

-- The rounds of `for(i = 0; i < n; i++)`.
abbrev pub rounds : ℕ → ℕ
rounds n = if ltb n (2 ^ 31) then n else 0

unfoldable pub pipewrite : (ℕ → Pipe → Pipe) → ℕ → (addr : ℕ → ℕ) → ℕ → Cmd Pipe ℤ
pipewrite elsewhere k addr n = do
  lock_pipe
  done ← write_bytes elsewhere k addr (rounds n) 0
  if done
      then (do wake_readers; unlock_pipe; pure (to_int n))
      else (do unlock_pipe; pure (negsuc 0))

-- The loop of piperead on an empty pipe, at most `k` rounds: whether to go on.
unfoldable pub wait_bytes : (ℕ → Pipe → Pipe) → ℕ → Cmd Pipe Bool
wait_bytes elsewhere zero = λ _. out_of_fuel
wait_bytes elsewhere (suc k) = do
  s ← fetch
  if (s.nread == s.nwrite) && s.writeopen
      then (if s.killed then pure false else (do sleep_pipe elsewhere; wait_bytes elsewhere k))
      else pure true

-- The loop of piperead from index `i` on, `m` rounds, with the bytes of `addr` so far: the last index
-- and the bytes.
unfoldable pub read_bytes : (m i : ℕ) → (ℕ → ℕ) → Cmd Pipe (ℕ × (ℕ → ℕ))
read_bytes zero i addr = pure (i, addr)
read_bytes (suc m) i addr = do
  s ← fetch
  let v = s.data_ (s.nread % pipesize)
  if s.nread == s.nwrite then pure (i, addr) else (do
    modify (λ s. record s { nread = add32 s.nread 1 })
    read_bytes m (i + 1) (λ j. if j == i then v else addr j))

-- The result of piperead and the bytes of addr afterwards.
unfoldable pub piperead : (ℕ → Pipe → Pipe) → ℕ → (addr : ℕ → ℕ) → ℕ → Cmd Pipe (ℤ × (ℕ → ℕ))
piperead elsewhere k addr n = do
  lock_pipe
  go ← wait_bytes elsewhere k
  if go
      then (do r ← read_bytes (rounds n) 0 addr; wake_writers; unlock_pipe; pure (pos r.0, r.1))
      else (do unlock_pipe; pure (negsuc 0, addr))
