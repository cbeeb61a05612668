-- ===== src/Files/Pipes.antt =====
-- pipealloc of pipe.c on the table of open files.
pub mod Took
pub mod Alloc
use cs.Prelude.{
  ℕ, ◌+◌, ◌<◌, ◌≡◌, refl, ◌∙◌, ap, sym, subst, ◌≢◌, ◌⊎◌, inl, inr, true, false, ◌||◌, arith, ◌==◌,
  ==_refl, ==_ne, Bool-cases, if◌then◌else◌,
}
use cs.Prelude.Int.{ℤ, pos, negsuc}
use cs.Prelude.Run.{Cmd, pure, Yields, yields, Yields-mono, Yields-bind, Yields-then, ◌>>=◌, ◌>>◌}
use cs.Proc.Table.{Ptr, null}
use cs.Proc.Table.Lock.{IsFree, taken, given_back-IsFree}
use cs.Pipe.{Pipe, new_pipe}
use cs.Pipe.Queue.{Holds}
use cs.Files.{nfile, fd_none, fd_pipe, File, Ftable, put_file, write_file, filealloc, fileclose}
use cs.Files.Counts.{fileclose-last}
use cs.Files.Counts.First.{filealloc-first}

-- The end of a pipe, for reading or for writing.
abbrev pub set_end : (pipe readable writable : ℕ) → File → File
set_end pipe readable writable f = record f {
  type_ = fd_pipe;
  readable = readable;
  writable = writable;
  pipe = pipe;
}

-- `if(*f) fileclose(*f);`
abbrev pub close_if : Ptr → Cmd Ftable (Unit {0})
close_if f = if f == null then pure tt else fileclose f

-- `page` is what kalloc returns, and `p` the memory there. The result, *f0, *f1 and the pipe. Where it
-- fails there is no page to give back.
unfoldable pub pipealloc : Ptr → Pipe → Cmd Ftable (ℤ × Ptr × Ptr × Pipe)
pipealloc page p = do
  f0 ← filealloc
  f1 ← if f0 == null then pure null else filealloc
  if (f1 == null) || (page == null)
      then (do close_if f0; close_if f1; pure (negsuc 0, f0, f1, p))
      else (do
        write_file f0 (set_end page 1 0)
        write_file f1 (set_end page 0 1)
        pure (pos 0, f0, f1, new_pipe p))

-- No entry has got another count, and no other part of the kernel has been asked for anything.
abbrev pub Unopened : Ftable → Ftable → Type 0
Unopened s t = ((q : Ptr) → (t.file q).ref ≡ (s.file q).ref) × (t.calls ≡ s.calls)

-- All entries of the table but, perhaps, one are in use.
abbrev pub FewFree : Ftable → Type 0
FewFree s = (f : Ptr) × ((q : Ptr) → 0 < q → q < nfile + 1 → f ≢ q → (s.file q).ref ≢ 0)

-- Two free entries of the table have become the ends of the pipe `page`.
pub record Opened (s : Ftable) (page : ℕ) (f0 f1 : Ptr) (t : Ftable) : Type 0 where
  pub apart : f0 ≢ f1
  pub inside0 : (0 < f0) × (f0 < nfile + 1)
  pub inside1 : (0 < f1) × (f1 < nfile + 1)
  pub was_free0 : (s.file f0).ref ≡ 0
  pub was_free1 : (s.file f1).ref ≡ 0
  pub reader :
      t.file f0
      ≡ record (s.file f0) { type_ = fd_pipe; ref = 1; readable = 1; writable = 0; pipe = page }
  pub writer :
      t.file f1
      ≡ record (s.file f1) { type_ = fd_pipe; ref = 1; readable = 0; writable = 1; pipe = page }
  pub others : (q : Ptr) → f0 ≢ q → f1 ≢ q → t.file q ≡ s.file q

-- An empty pipe, open at both ends.
abbrev pub IsNew : Pipe → Type 0
IsNew p = Holds p 0 (λ j. 0) × (p.readopen ≡ true) × (p.writeopen ≡ true)
