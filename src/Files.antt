-- ===== src/Files.antt =====
-- The table of open files of file.c: filealloc, filedup and fileclose. Entry i of ftable.file is at
-- the pointer i + 1, and null is 0. `ref` is the bit pattern of the int.
pub mod Counts
pub mod Pipes
pub mod Transfer
mod Tests
use Prim.Native.String.{String}
use cs.Prelude.{ℕ, zero, suc, ◌+◌, Bool, true, false, List, ◌∷◌, ◌==◌, not, if◌then◌else◌}
use cs.Prelude.Run.{Cmd, ok, panic, fault, out_of_fuel, pure, ◌>>=◌, ◌>>◌}
use cs.Spinlock
use cs.Spinlock.{Held, within}
use cs.Proc.Table.{Ptr, null, add32, sub32, not_positive}

abbrev pub nfile : ℕ
nfile = 100

pub data FileType : Type 0 where
  fd_none fd_pipe fd_inode : FileType

-- struct file.
pub record File : Type 0 where
  pub type_ : FileType
  pub ref : ℕ
  pub readable : ℕ
  pub writable : ℕ
  pub pipe : ℕ
  pub ip : ℕ
  pub off : ℕ

-- What fileclose asks of pipe.c, fs.c and log.c.
pub data FileCall : Type 0 where
  pipeclose : (pipe writable : ℕ) → FileCall
  iput : ℕ → FileCall
  begin_op end_op : FileCall

-- ftable; `calls` has the last call first.
pub record Ftable : Type 0 where
  pub file : Ptr → File
  pub held : Held
  pub calls : List FileCall

abbrev pub put_file : (Ptr → File) → Ptr → File → Ptr → File
put_file f p v q = if q == p then v else f q

-- acquire(&ftable.lock) and release(&ftable.lock).
unfoldable pub lock_table : Cmd Ftable (Unit {0})
lock_table = within (λ s. s.held) (λ s h. record s { held = h }) Spinlock.acquire

unfoldable pub unlock_table : Cmd Ftable (Unit {0})
unlock_table = within (λ s. s.held) (λ s h. record s { held = h }) Spinlock.release

abbrev pub read_file : Ptr → Cmd Ftable File
read_file p s = if p == null then fault else ok (s.file p) s

abbrev pub write_file : Ptr → (File → File) → Cmd Ftable (Unit {0})
write_file p f s =
    if p == null then fault else ok tt (record s { file = put_file s.file p (f (s.file p)) })

abbrev pub ask : FileCall → Cmd Ftable (Unit {0})
ask c s = ok tt (record s { calls = c ∷ s.calls })

abbrev pub panic_unless : Bool → String → Cmd Ftable (Unit {0})
panic_unless true why s = ok tt s
panic_unless false why s = panic why

abbrev pub take_file : Ptr → Cmd Ftable Ptr
take_file p = do write_file p (λ f. record f { ref = 1 }); unlock_table; pure p

-- The loop of filealloc from `p` on, `k` entries of the table.
unfoldable pub alloc_loop : ℕ → Ptr → Cmd Ftable Ptr
unfolding unlock_table
alloc_loop zero p = do unlock_table; pure null
alloc_loop (suc k) p = do f ← read_file p; if f.ref == 0 then take_file p else alloc_loop k (p + 1)

unfoldable pub filealloc : Cmd Ftable Ptr
filealloc = do lock_table; alloc_loop nfile 1

unfoldable pub filedup : Ptr → Cmd Ftable Ptr
filedup p = do
  lock_table
  f ← read_file p
  panic_unless (not (not_positive f.ref)) "filedup"
  write_file p (λ f. record f { ref = add32 f.ref 1 })
  unlock_table
  pure p

-- What fileclose does with a file that nobody has open any more.
unfoldable pub close_last : File → Cmd Ftable (Unit {0})
close_last ff = elim ff.type_ [
  | fd_none ↦ pure tt
  | fd_pipe ↦ ask (pipeclose ff.pipe ff.writable)
  | fd_inode ↦ (do ask begin_op; ask (iput ff.ip); ask end_op)
]

unfoldable pub fileclose : Ptr → Cmd Ftable (Unit {0})
fileclose p = do
  lock_table
  f ← read_file p
  panic_unless (not (not_positive f.ref)) "fileclose"
  write_file p (λ f. record f { ref = sub32 f.ref 1 })
  ff ← read_file p
  if not (not_positive ff.ref) then unlock_table else (do
    write_file p (λ f. record f { ref = 0; type_ = fd_none })
    unlock_table
    close_last ff)
