-- ===== src/Files/Transfer.antt =====
-- filestat, fileread and filewrite of file.c on one open file. What fs.c and pipe.c return is an
-- argument; an int is a number, or its bit pattern where it comes from the caller.
pub mod Chunks
use Prim.Native.String.{String}
use cs.Prelude.{
  ℕ, zero, suc, ◌+◌, ◌-◌, ◌*◌, ◌^◌, Bool, true, false, List, [], ◌∷◌, ◌++◌, ◌==◌, ltb, leb,
  if◌then◌else◌,
}
use cs.Prelude.Int.{ℤ, pos, negsuc, to_int}
use cs.Prelude.Run.{Cmd, ok, panic, out_of_fuel, pure, fetch, modify, ◌>>=◌, ◌>>◌}
use cs.Proc.Table.{add32}
use cs.Files.{FileType, fd_none, fd_pipe, fd_inode, File}

-- What is asked of fs.c and log.c for the inode of the file, in the order of the calls. A write is of
-- `count` bytes from addr + `from` to the offset `off`.
pub data InodeCall : Type 0 where
  ilock iunlock stati begin_op end_op : InodeCall
  readi : (off count : ℕ) → InodeCall
  writei : (from off count : ℕ) → InodeCall

pub record Transfer : Type 0 where
  pub file : File
  pub calls : List InodeCall

abbrev pub ask : InodeCall → Cmd Transfer (Unit {0})
ask c = modify (λ s. record s { calls = s.calls ++ c ∷ [] })

-- `if(r > 0) f->off += r;`
abbrev pub advance : ℤ → Cmd Transfer (Unit {0})
advance (pos r) = modify (λ s. record s { file = record s.file { off = add32 s.file.off r } })
advance (negsuc r) = modify (λ s. s)

unfoldable pub filestat : Cmd Transfer ℤ
filestat = do
  s ← fetch
  elim s.file.type_ [
    | fd_none ↦ pure (negsuc 0)
    | fd_pipe ↦ pure (negsuc 0)
    | fd_inode ↦ (do ask ilock; ask stati; ask iunlock; pure (pos 0))
  ]

-- `piped` is the result of piperead, and `r` that of readi.
unfoldable pub fileread : (piped r : ℤ) → (n : ℕ) → Cmd Transfer ℤ
fileread piped r n = do
  s ← fetch
  if s.file.readable == 0 then pure (negsuc 0) else elim s.file.type_ [
    | fd_none ↦ λ _. panic "fileread"
    | fd_pipe ↦ pure piped
    | fd_inode ↦ (do ask ilock; ask (readi s.file.off n); advance r; ask iunlock; pure r)
  ]

-- ((LOGSIZE-1-1-2) / 2) * 512.
abbrev pub max_write : ℕ
max_write = 6656

-- The bytes of one round.
abbrev pub chunk : ℕ → ℕ
chunk left = if ltb max_write left then max_write else left

-- After the transaction of a round for `n1` bytes that has returned `r`: whether the loop goes on.
abbrev pub after_write : (n1 : ℕ) → ℤ → Cmd Transfer Bool
after_write n1 (negsuc r) = pure false
after_write n1 (pos r) = if r == n1 then pure true else (λ _. panic "short filewrite")

-- The loop of filewrite from `i` on, at most `k` rounds, with the last `i`; `written j c` is what writei of
-- `c` bytes from addr + j returns.
unfoldable pub write_loop : (written : ℕ → ℕ → ℤ) → (k n i : ℕ) → Cmd Transfer ℕ
write_loop written zero n i = if ltb i n then (λ _. out_of_fuel) else pure i
write_loop written (suc k) n i =
    let n1 = chunk (n - i) in
    let round : Cmd Transfer ℕ = (do
      ask begin_op
      ask ilock
      s ← fetch
      ask (writei i s.file.off n1)
      advance (written i n1)
      ask iunlock
      ask end_op
      more ← after_write n1 (written i n1)
      if more then write_loop written k n (i + n1) else pure i) in
    if ltb i n then round else pure i

-- filewrite for each type of file. `piped` is the result of pipewrite; `n` is a bit pattern.
abbrev pub write_as : (piped : ℤ) → (written : ℕ → ℕ → ℤ) → (k n : ℕ) → FileType → Cmd Transfer ℤ
write_as piped written k n fd_none = λ _. panic "filewrite"
write_as piped written k n fd_pipe = pure piped
write_as piped written k n fd_inode = do
  i ← write_loop written k (if ltb n (2 ^ 31) then n else 0) 0
  pure (if i == n then to_int n else negsuc 0)

unfoldable pub filewrite : (piped : ℤ) → (written : ℕ → ℕ → ℤ) → (k n : ℕ) → Cmd Transfer ℤ
filewrite piped written k n = do
  s ← fetch
  if s.file.writable == 0 then pure (negsuc 0) else write_as piped written k n s.file.type_
