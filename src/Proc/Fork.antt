-- ===== src/Proc/Fork.antt =====
-- fork of proc.c. `kstack` is what kalloc returns in allocproc, `pgdir` what copyuvm
-- returns, each 0 if there is no memory.
pub mod Files
pub mod Child
pub mod Invariant
use Prim.Native.String.{String}
use cs.Prelude.{ℕ, zero, suc, ◌+◌, ◌==◌, if◌then◌else◌}
use cs.Prelude.Int.{ℤ, pos, negsuc, to_int}
use cs.Prelude.Run.{Cmd, pure, fetch, ◌>>=◌, ◌>>◌}
use cs.Bytes.{poke, safestrcpy}
use cs.Proc.Table.{
  Ptr, null, nofile, unused, runnable, Trapframe, Proc, ready, free_list, embryo_list, Call, kfree,
  filedup, idup, Kern, deref, assign, call, acquire, release,
}
use cs.Proc.Lists.{relist, assert_state}
use cs.Proc.Alloc.{allocproc}

-- There is no memory for the copy: the new process goes back to the free list.
unfoldable pub fork_undo : Ptr → Cmd Kern ℤ
fork_undo np = do
  q ← deref np
  call (kfree q.kstack)
  assign np (λ q. record q { kstack = 0; state = unused })
  acquire
  relist embryo_list free_list np "error removing from embryo." "error adding to freelist."
  assert_state np unused
  release
  pure (negsuc 0)

-- One descriptor, and the loop over them from `fd` on, `k` of them. filedup returns its argument.
unfoldable pub copy_file : Ptr → Ptr → ℕ → Cmd Kern (Unit {0})
copy_file me np fd = do
  q ← deref me
  if q.ofile fd == 0 then pure tt else (do
    call (filedup (q.ofile fd))
    assign np (λ r. record r { ofile = poke r.ofile fd (q.ofile fd) }))

unfoldable pub copy_files : Ptr → Ptr → ℕ → ℕ → Cmd Kern (Unit {0})
copy_files me np zero fd = pure tt
copy_files me np (suc k) fd = do copy_file me np fd; copy_files me np k (fd + 1)

-- Size, parent and trap frame, with 0 as the child's result of fork.
unfoldable pub inherit : Ptr → Proc → Proc → Proc
inherit me q r = record r { sz = q.sz; parent = me; frame = record (q.frame) { eax = 0 } }

-- sizeof(proc->name)
abbrev pub name_size : ℕ
name_size = 16

-- What the child takes over without ptable.lock. idup returns its argument.
unfoldable pub fork_copy : Ptr → Ptr → Cmd Kern (Unit {0})
fork_copy me np = do
  q ← deref me
  assign np (inherit me q)
  copy_files me np nofile 0
  q ← deref me
  call (idup q.cwd)
  assign np (λ r. record r { cwd = q.cwd; name = safestrcpy q.name name_size r.name })

-- The child becomes ready.
unfoldable pub fork_start : Ptr → Cmd Kern (Unit {0})
fork_start np = do
  acquire
  q ← deref np
  assign np (λ r. record r { state = runnable })
  relist embryo_list (ready q.priority) np "error removing from embryo."
      "error adding to ready list."
  assert_state np runnable
  release

unfoldable pub fork_child : Ptr → Ptr → Cmd Kern ℤ
fork_child me np = do
  fork_copy me np
  child ← deref np
  fork_start np
  q ← deref me
  assign np (λ r. record r { uid = q.uid; gid = q.gid })
  pure (to_int child.pid)

unfoldable pub fork_found : ℕ → Ptr → Cmd Kern ℤ
fork_found pgdir np = do
  assign np (λ r. record r { pgdir = pgdir })
  s ← fetch
  if pgdir == 0 then fork_undo np else fork_child s.current np

unfoldable pub fork : (kstack pgdir : ℕ) → Cmd Kern ℤ
fork kstack pgdir = do
  np ← allocproc kstack
  if np == null then pure (negsuc 0) else fork_found pgdir np
