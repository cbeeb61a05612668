-- ===== src/Proc/Table.antt =====
-- The data of proc.h and proc.c: processes, the state lists, and what the process code reads and
-- writes of the kernel. Entry i of `ptable.proc` is at the pointer i + 1, and 0 is null.
pub mod Lock
use Prim.Native.String.{String}
use cs.Prelude.{
  ℕ, ◌+◌, ◌%◌, ◌^◌, ◌-◌, ◌≡◌, ◌↔◌, Bool, true, false, List, ◌∷◌, ◌||◌, ◌==◌, leb, ltb,
  if◌then◌else◌, arith,
}
use cs.Prelude.Run.{Cmd, ok, panic, fault, out_of_fuel}
use cs.Bytes.{Memory}
use cs.Spinlock
use cs.Spinlock.{Held, within}

abbrev pub Ptr : Type 0
Ptr = ℕ

abbrev pub null : Ptr
null = 0

abbrev pub nproc : ℕ
nproc = 64

abbrev pub maxprio : ℕ
maxprio = 6

abbrev pub initial_budget : ℕ
initial_budget = 100

abbrev pub ticks_to_promote : ℕ
ticks_to_promote = 500

abbrev pub kstacksize : ℕ
kstacksize = 4096

abbrev pub nofile : ℕ
nofile = 16

pub data Procstate : Type 0 where
  unused embryo sleeping runnable running zombie : Procstate

-- A wait channel: the address of a process, or of any other kernel object.
pub data Chan : Type 0 where
  no_chan : Chan
  proc_chan : Ptr → Chan
  other_chan : ℕ → Chan

abbrev pub chan_eq : Chan → Chan → Bool
chan_eq no_chan no_chan = true
chan_eq (proc_chan p) (proc_chan q) = p == q
chan_eq (other_chan a) (other_chan b) = a == b
chan_eq _ _ = false

-- The saved user registers of struct trapframe that the process code writes; `rest` is the others.
pub record Trapframe : Type 0 where
  pub eax : ℕ
  pub eip : ℕ
  pub cs_reg : ℕ
  pub ds : ℕ
  pub es : ℕ
  pub ss : ℕ
  pub eflags : ℕ
  pub esp : ℕ
  pub rest : List ℕ

-- struct context.
pub record Context : Type 0 where
  pub edi : ℕ
  pub esi : ℕ
  pub ebx : ℕ
  pub ebp : ℕ
  pub eip : ℕ

-- struct proc. `frame`, `return_to` and `saved` are what stands in the kernel stack at `tf`, below
-- it, and at `context`. `budget` is the bit pattern of the `int`.
pub record Proc : Type 0 where
  pub sz : ℕ
  pub pgdir : ℕ
  pub kstack : ℕ
  pub state : Procstate
  pub pid : ℕ
  pub parent : Ptr
  pub tf : ℕ
  pub frame : Trapframe
  pub return_to : ℕ
  pub context : ℕ
  pub saved : Context
  pub chan : Chan
  pub killed : ℕ
  pub ofile : ℕ → ℕ
  pub cwd : ℕ
  pub name : Memory
  pub start_ticks : ℕ
  pub uid : ℕ
  pub gid : ℕ
  pub cpu_ticks_total : ℕ
  pub cpu_ticks_in : ℕ
  pub next : Ptr
  pub budget : ℕ
  pub priority : ℕ

-- The lists of struct StateLists.
pub data ListName : Type 0 where
  ready : ℕ → ListName
  free_list sleep_list zombie_list running_list embryo_list : ListName

abbrev pub same_list : ListName → ListName → Bool
same_list (ready i) (ready j) = i == j
same_list free_list free_list = true
same_list sleep_list sleep_list = true
same_list zombie_list zombie_list = true
same_list running_list running_list = true
same_list embryo_list embryo_list = true
same_list _ _ = false

-- `ready` has maxprio + 1 entries.
abbrev pub is_list : ListName → Bool
is_list (ready i) = ltb i (maxprio + 1)
is_list _ = true

-- The head and tail pointers of one list.
pub record Ends : Type 0 where
  pub head : Ptr
  pub tail : Ptr

-- What the process code asks of other parts of the kernel, in the order of the calls.
pub data Call : Type 0 where
  kfree freevm fileclose iput filedup idup : ℕ → Call
  begin_op end_op : Call
  switchuvm swtch_to : Ptr → Call
  switchkvm to_scheduler : Call

-- `procs` and `ends` are `ptable.proc` and `ptable.pLists`; `current` is this CPU's `proc`;
-- `held` is the CPU's hold on `ptable.lock`; `calls` has the last call first.
pub record Kern : Type 0 where
  pub procs : Ptr → Proc
  pub ends : ListName → Ends
  pub promote_at : ℕ
  pub next_pid : ℕ
  pub initproc : Ptr
  pub current : Ptr
  pub ticks : ℕ
  pub held : Held
  pub forkret : ℕ
  pub trapret : ℕ
  pub calls : List Call

-- An update of one entry.
abbrev pub put : (Ptr → Proc) → Ptr → Proc → Ptr → Proc
put f p v q = if q == p then v else f q

abbrev pub put_ends : (ListName → Ends) → ListName → Ends → ListName → Ends
put_ends f n e m = if same_list m n then e else f m

-- `*p`, a fault at null.
unfoldable pub deref : Ptr → Cmd Kern Proc
deref p s = if p == null then fault else ok (s.procs p) s

-- `p->field = …`
unfoldable pub assign : Ptr → (Proc → Proc) → Cmd Kern (Unit {0})
assign p f s =
    if p == null then fault else ok tt (record s { procs = put s.procs p (f (s.procs p)) })

-- The pair of pointers of a list, a fault outside of `ready`.
unfoldable pub read_ends : ListName → Cmd Kern Ends
read_ends n s = if is_list n then ok (s.ends n) s else fault

unfoldable pub write_ends : ListName → Ends → Cmd Kern (Unit {0})
write_ends n e s = ok tt (record s { ends = put_ends s.ends n e })

unfoldable pub call : Call → Cmd Kern (Unit {0})
call c s = ok tt (record s { calls = c ∷ s.calls })

-- `if (e) panic(why)`
abbrev pub panic_if : Bool → String → Cmd Kern (Unit {0})
panic_if true why s = panic why
panic_if false why s = ok tt s

-- acquire(&ptable.lock) and release(&ptable.lock).
unfoldable pub acquire : Cmd Kern (Unit {0})
acquire = within (λ s. s.held) (λ s h. record s { held = h }) Spinlock.acquire

unfoldable pub release : Cmd Kern (Unit {0})
release = within (λ s. s.held) (λ s h. record s { held = h }) Spinlock.release

-- Unsigned 32-bit subtraction and addition.
abbrev pub sub32 : ℕ → ℕ → ℕ
sub32 a b = (a + 2 ^ 32 - b) % 2 ^ 32

abbrev pub add32 : ℕ → ℕ → ℕ
add32 a b = (a + b) % 2 ^ 32

-- `x <= 0` for an `int` with this bit pattern.
abbrev pub not_positive : ℕ → Bool
not_positive x = (x == 0) || leb (2 ^ 31) x

unfoldable pub state_eq : Procstate → Procstate → Bool
state_eq unused unused = true
state_eq embryo embryo = true
state_eq sleeping sleeping = true
state_eq runnable runnable = true
state_eq running running = true
state_eq zombie zombie = true
state_eq _ _ = false

pub same_list_iff : (m n : ListName) → (same_list m n ≡ true) ↔ (m ≡ n)
same_list_iff m n = ground arith

-- The channel of `sleep(p, …)` and `wakeup1(p)` for a process pointer.
abbrev pub chan_of : Ptr → Chan
chan_of p = if p == null then no_chan else proc_chan p
