-- ===== src/Proc/Init.antt =====
-- Start of the process table: initProcessLists, initFreeList and userinit of proc.c. `kstack`,
-- `pgdir` and `cwd` are what kalloc, setupkvm and namei return; `initcode` is the text "initcode".
pub mod FreeList
pub mod First
use Prim.Native.String.{String}
use cs.Prelude.{ℕ, zero, suc, ◌+◌, not, ◌==◌, map, if◌then◌else◌}
use cs.Prelude.Run.{Cmd, pure, fetch, modify, ◌>>=◌, ◌>>◌}
use cs.Bytes.{Memory, safestrcpy}
use cs.Proc.Table.{
  Ptr, null, nproc, maxprio, ticks_to_promote, unused, runnable, Trapframe, Proc, ListName, ready,
  free_list, sleep_list, zombie_list, running_list, embryo_list, Ends, Kern, deref, assign,
  write_ends, panic_if, acquire, release, add32,
}
use cs.Proc.StateList.{state_list_add}
use cs.Proc.Lists.{relist, assert_state}
use cs.Proc.Alloc.{allocproc}

unfoldable pub clear : ListName → Cmd Kern (Unit {0})
clear n = write_ends n (record { head = null; tail = null })

-- The ready lists from `i` on, `k` of them.
unfoldable pub clear_ready : ℕ → ℕ → Cmd Kern (Unit {0})
clear_ready zero i = pure tt
clear_ready (suc k) i = do clear (ready i); clear_ready k (i + 1)

unfoldable pub init_process_lists : Cmd Kern (Unit {0})
init_process_lists = do
  clear_ready (maxprio + 1) 0
  clear free_list
  clear sleep_list
  clear zombie_list
  clear running_list
  clear embryo_list

-- The loop from process `p` on, `k` of them; the result of stateListAdd is ignored.
unfoldable pub free_all : ℕ → Ptr → Cmd Kern (Unit {0})
free_all zero p = pure tt
free_all (suc k) p = do
  assign p (λ q. record q { state = unused })
  _ ← state_list_add free_list p
  free_all k (p + 1)

unfoldable pub init_free_list : Cmd Kern (Unit {0})
init_free_list = do
  s ← fetch
  panic_if (not s.held.holding) "acquire the ptable lock before calling initFreeList\n"
  free_all nproc 1

unfoldable pub init_table : Cmd Kern (Unit {0})
init_table = do
  acquire
  init_process_lists
  init_free_list
  modify (λ s. record s { promote_at = add32 s.ticks ticks_to_promote })
  release

abbrev pub page_size : ℕ
page_size = 4096

-- (SEG_UCODE << 3) | DPL_USER, (SEG_UDATA << 3) | DPL_USER and FL_IF.
abbrev pub user_frame : Trapframe → Trapframe
user_frame f = record {
  eax = 0;
  eip = 0;
  cs_reg = 35;
  ds = 43;
  es = 43;
  ss = 43;
  eflags = 512;
  esp = page_size;
  rest = map (λ _. 0) f.rest;
}

unfoldable pub first_fields : (cwd : ℕ) → (initcode : Memory) → Proc → Proc
first_fields cwd initcode q = record q {
  sz = page_size;
  frame = user_frame q.frame;
  name = safestrcpy initcode 16 q.name;
  cwd = cwd;
  state = runnable;
}

-- `userinit` after allocproc.
unfoldable pub start_first : Ptr → (pgdir cwd : ℕ) → (initcode : Memory) → Cmd Kern (Unit {0})
start_first p pgdir cwd initcode = do
  modify (λ s. record s { initproc = p })
  assign p (λ q. record q { pgdir = pgdir })
  panic_if (pgdir == 0) "userinit: out of memory?"
  assign p (first_fields cwd initcode)
  acquire
  q ← deref p
  relist embryo_list (ready q.priority) p "error removing from embryo list."
      "error adding to ready list."
  assert_state p runnable
  release
  assign p (λ q. record q { uid = 0; gid = 0 })

unfoldable pub userinit : (kstack pgdir cwd : ℕ) → (initcode : Memory) → Cmd Kern (Unit {0})
userinit kstack pgdir cwd initcode = do
  init_table
  p ← allocproc kstack
  start_first p pgdir cwd initcode
