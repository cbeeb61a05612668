-- ===== src/Proc/Alloc.antt =====
-- allocproc of proc.c. `kstack` is what its call of kalloc returns, 0 if there is no memory.
pub mod Invariant
use Prim.Native.String.{String}
use cs.Prelude.{ℕ, ◌+◌, ◌-◌, ◌%◌, ◌^◌, ◌==◌, if◌then◌else◌}
use cs.Prelude.Run.{Cmd, pure, fetch, modify, ◌>>=◌, ◌>>◌}
use cs.Proc.Table.{
  Ptr, null, kstacksize, initial_budget, unused, embryo, Context, Proc, free_list, embryo_list,
  Kern, assign, acquire, release,
}
use cs.Proc.Lists.{relist, assert_state}

-- sizeof(struct trapframe) and sizeof(struct context)
abbrev pub trapframe_size : ℕ
trapframe_size = 76

abbrev pub context_size : ℕ
context_size = 20

-- The kernel stack is gone: the process goes back to the free list.
unfoldable pub alloc_undo : Ptr → Cmd Kern Ptr
alloc_undo p = do
  assign p (λ q. record q { kstack = 0; state = unused })
  relist embryo_list free_list p "error removing from embryo list." "error adding to free list."
  assert_state p unused
  pure null

-- Trap frame, return address and context at the top of the kernel stack.
unfoldable pub alloc_stack : Ptr → ℕ → Cmd Kern Ptr
alloc_stack p kstack = do
  s ← fetch
  let sp : ℕ = kstack + kstacksize - trapframe_size
  assign p (λ q. record q {
    kstack = kstack;
    tf = sp;
    return_to = s.trapret;
    context = sp - 4 - context_size;
    saved = record { edi = 0; esi = 0; ebx = 0; ebp = 0; eip = s.forkret };
  })
  pure p

-- The new process of the first critical section.
unfoldable pub fresh : ℕ → ℕ → Proc → Proc
fresh pid ticks q = record q {
  pid = pid;
  start_ticks = ticks;
  uid = 0;
  gid = 0;
  cpu_ticks_in = 0;
  cpu_ticks_total = 0;
  priority = 0;
  budget = initial_budget;
}

unfoldable pub alloc_found : Ptr → ℕ → Cmd Kern Ptr
alloc_found p kstack = do
  assign p (λ q. record q { state = embryo })
  relist free_list embryo_list p "error removing from free list." "error adding to embryo list."
  assert_state p embryo
  s ← fetch
  assign p (fresh s.next_pid s.ticks)
  modify (λ k. record k { next_pid = (k.next_pid + 1) % 2 ^ 32 })
  release
  if kstack == 0 then alloc_undo p else alloc_stack p kstack

unfoldable pub allocproc : ℕ → Cmd Kern Ptr
allocproc kstack = do
  acquire
  s ← fetch
  let p : Ptr = (s.ends free_list).head
  if p == null then (do release; pure null) else alloc_found p kstack
