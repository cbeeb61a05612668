-- ===== src/Proc/Sample.antt =====
-- A process table to try the operations on: processes 1 and 2 sleep on one channel, 3 runs, 4 is
-- ready at priority 2, 5 is a zombie, children of 3, and the other processes are free.
mod Tests
use cs.Prelude.{
  ℕ, zero, suc, ◌+◌, ◌≤◌, ◌<◌, ◌≡◌, refl, sym, ◌∙◌, ap, subst, ◌≢◌, inl, inr, Bool, true, false,
  List, [], ◌∷◌, arith, ◌==◌, ltb, leb, if◌then◌else◌, Bool-cases,
}
use cs.Prelude.Finite.{has, Distinct, last}
use cs.Prelude.Count.{count, has-count, Distinct-count, last-count}
use cs.Spinlock.{Cpu, Held}
use cs.Proc.Table.{
  Ptr, null, nproc, maxprio, Procstate, unused, embryo, sleeping, runnable, running, zombie, Chan,
  no_chan, other_chan, Trapframe, Context, Proc, ListName, ready, free_list, sleep_list,
  zombie_list, running_list, embryo_list, is_list, Ends, Kern,
}
use cs.Proc.StateList.Queue.{Chain, TailIs, IsQueue}
use cs.Proc.Lists.{home, home_of}
use cs.Proc.Lists.Members.{Members, Lists}
use cs.Proc.Lists.Moves.{Inv}

abbrev pub blank_frame : Trapframe
blank_frame = record {
  eax = 0;
  eip = 0;
  cs_reg = 0;
  ds = 0;
  es = 0;
  ss = 0;
  eflags = 0;
  esp = 0;
  rest = [];
}

abbrev pub blank_context : Context
blank_context = record { edi = 0; esi = 0; ebx = 0; ebp = 0; eip = 0 }

abbrev process : Procstate → Chan → Ptr → ℕ → ℕ → Ptr → Proc
process state chan parent pid priority next = record {
  sz = 4096;
  pgdir = 0;
  kstack = 0;
  state = state;
  pid = pid;
  parent = parent;
  tf = 0;
  frame = blank_frame;
  return_to = 0;
  context = 0;
  saved = blank_context;
  chan = chan;
  killed = 0;
  ofile = λ _. 0;
  cwd = 0;
  name = λ _. 0;
  start_ticks = 0;
  uid = 0;
  gid = 0;
  cpu_ticks_total = 0;
  cpu_ticks_in = 0;
  next = next;
  budget = 100;
  priority = priority;
}

abbrev table : Ptr → Proc
table p =
    if p == 1
    then process sleeping (other_chan 9) 3 1 0 2
    else if p == 2
    then process sleeping (other_chan 9) 3 2 0 null
    else if p == 3
    then process running no_chan null 3 0 null
    else if p == 4
    then process runnable no_chan 3 4 2 null
    else if p == 5
    then process zombie no_chan 3 5 0 null
    else if ltb p 64
    then process unused no_chan null 0 0 (p + 1)
    else process unused no_chan null 0 0 null

abbrev both : Ptr → Ptr → Ends
both h t = record { head = h; tail = t }

abbrev ends : ListName → Ends
ends (ready i) = if i == 2 then both 4 4 else both null null
ends free_list = both 6 64
ends sleep_list = both 1 2
ends zombie_list = both 5 5
ends running_list = both 3 3
ends embryo_list = both null null

abbrev pub members : Members
members (ready i) = if i == 2 then 4 ∷ [] else []
members free_list = count 6 59
members sleep_list = 1 ∷ 2 ∷ []
members zombie_list = 5 ∷ []
members running_list = 3 ∷ []
members embryo_list = []

abbrev pub kern : Kern
kern = record {
  procs = table;
  ends = ends;
  promote_at = 500;
  next_pid = 6;
  initproc = 1;
  current = 3;
  ticks = 40;
  held = record { cpu = record { interrupts = true; ncli = 0; intena = false }; holding = false };
  forkret = 100;
  trapret = 200;
  calls = [];
}

Chain-free : (a k : ℕ) → 6 ≤ a → a + k ≡ 64 → Chain table a (count a (suc k))
Chain-free a zero lo e = ground arith
Chain-free a (suc k) lo e =
    let n : (table a).next ≡ a + 1 = ground arith in
    (
      refl,
      omega arith,
      subst (λ h. Chain table h (count (a + 1) (suc k))) (sym n)
          (Chain-free (a + 1) k (omega arith) (omega arith)),
    )

queue : (n : ListName) → IsQueue table (ends n) (members n)
queue (ready i) = elim (Bool-cases (i == 2)) [
  | inl e ↦ rw e (record { chain = omega arith; tail_is = refl })
  | inr e ↦ rw e (record { chain = refl; tail_is = tt })
]
queue free_list = record { chain = Chain-free 6 58 (omega arith) refl; tail_is = refl }
queue sleep_list = record { chain = omega arith; tail_is = refl }
queue zombie_list = record { chain = omega arith; tail_is = refl }
queue running_list = record { chain = omega arith; tail_is = refl }
queue embryo_list = record { chain = refl; tail_is = tt }

distinct : (n : ListName) → Distinct (members n)
distinct (ready i) = elim (Bool-cases (i == 2)) [ inl e ↦ rw e (refl, tt) | inr e ↦ rw e tt ]
distinct free_list = Distinct-count 6 59
distinct sleep_list = (refl, (refl, tt))
distinct zombie_list = (refl, tt)
distinct running_list = (refl, tt)
distinct embryo_list = tt

free_range : (p : Ptr) → has p (count 6 59) ≡ true → (6 ≤ p) × (p ≤ 64)
free_range p h = ground (arith, has-count p 6 59)

free_home : (p : Ptr) → 6 ≤ p → home (table p) ≡ free_list
unfolding home_of
free_home p h = ground arith

-- Each process of a list is at home there.
at_home : (n : ListName) (p : Ptr) → has p (members n) ≡ true → n ≡ home (table p)
unfolding home_of
at_home (ready i) p h = ground arith
at_home free_list p h = sym (free_home p (free_range p h).0)
at_home sleep_list p h = ground arith
at_home zombie_list p h = ground arith
at_home running_list p h = ground arith
at_home embryo_list p h = cc

bound : (n : ListName) (p : Ptr) → has p (members n) ≡ true → (0 < p) × (p ≤ nproc)
bound (ready i) p h = ground arith
bound free_list p h = let r = free_range p h in (omega arith, omega arith)
bound sleep_list p h = ground arith
bound zombie_list p h = ground arith
bound running_list p h = ground arith
bound embryo_list p h = cc

small_home : (p : Ptr) → 0 < p → p < 6 → has p (members (home (table p))) ≡ true
unfolding home_of
small_home p lo hi = ground arith

homes : (p : Ptr) → 0 < p → p ≤ nproc → has p (members (home (table p))) ≡ true
homes p lo hi = elim (Bool-cases (leb 6 p)) [
  | inl e ↦ rw (free_home p (ground arith)) (ground (arith, has-count p 6 59))
  | inr e ↦ small_home p lo (ground arith)
]

prios : (p : Ptr) → (table p).priority ≤ maxprio
prios p = ground arith

pub kern-Inv : Inv kern members
kern-Inv = record {
  lists = record {
    queue = λ n _. queue n;
    distinct = distinct;
    apart = λ m n p h k. at_home m p h ∙ sym (at_home n p k);
    bound = bound;
  };
  homes = homes;
  prios = prios;
}
