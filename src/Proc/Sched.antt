-- ===== src/Proc/Sched.antt =====
-- The scheduling calls of proc.c: sched, yield, sleep, and the dispatch of one process by
-- scheduler. `elsewhere` is what the rest of the system does between the two ends of a swtch.
pub mod Budget
pub mod Invariant
use Prim.Native.String.{String}
use cs.Prelude.{ℕ, ◌+◌, ◌*◌, ◌≡◌, Bool, true, false, ◌||◌, not, ◌==◌, ltb, if◌then◌else◌}
use cs.Prelude.Run.{Cmd, ok, panic, fault, out_of_fuel, pure, fetch, modify, ◌>>=◌, ◌>>◌}
use cs.Spinlock
use cs.Spinlock.{Held}
use cs.Proc.Table.{
  Ptr, null, maxprio, initial_budget, Procstate, sleeping, runnable, running, Chan, no_chan, Proc,
  ListName, ready, sleep_list, running_list, Call, swtch_to, to_scheduler, switchuvm, switchkvm,
  Kern, deref, assign, call, panic_if, acquire, release, sub32, add32, not_positive, state_eq,
}
use cs.Proc.Lists.{relist, relist_unchecked, assert_state}

unfoldable pub sched : (elsewhere : Kern → Kern) → Cmd Kern (Unit {0})
sched elsewhere = do
  s ← fetch
  panic_if (not s.held.holding) "sched ptable.lock"
  panic_if (not (s.held.cpu.ncli == 1)) "sched locks"
  q ← deref s.current
  panic_if (state_eq q.state running) "sched running"
  panic_if s.held.cpu.interrupts "sched interruptible"
  call to_scheduler
  modify elsewhere
  modify (λ t. record t {
    held = record (t.held) { cpu = record (t.held.cpu) { intena = s.held.cpu.intena } };
  })

-- The ticks that the process has run are taken from its budget; when the budget is used up the
-- process goes down one priority, and has the budget of that priority.
unfoldable pub charge : ℕ → Proc → Proc
charge ticks q =
    let left = sub32 q.budget (sub32 ticks q.cpu_ticks_in) in
    let prio = if ltb q.priority maxprio then q.priority + 1 else q.priority in
    if not_positive left
    then record q { priority = prio; budget = initial_budget * (prio + 1) }
    else record q { budget = left }

-- The remove and add of `yield`, whose results it ignores.
unfoldable pub relist_ready : Ptr → Cmd Kern (Unit {0})
relist_ready p = do q ← deref p; relist_unchecked running_list (ready q.priority) p

-- `yield` up to its call of sched.
unfoldable pub yield_begin : Cmd Kern (Unit {0})
yield_begin = do
  acquire
  s ← fetch
  assign s.current (λ q. charge s.ticks (record q { state = runnable }))
  relist_ready s.current
  assert_state s.current runnable
  pure tt

unfoldable pub yield : (elsewhere : Kern → Kern) → Cmd Kern (Unit {0})
yield elsewhere = do yield_begin; sched elsewhere; release

-- The second argument of `sleep`: &ptable.lock, null, or another lock, which this CPU holds.
pub data LockArg : Type 0 where
  ptable_lock no_lock other_lock : LockArg

-- release(lk) and acquire(lk) of another lock, as far as this CPU is concerned.
unfoldable pub release_other : Cmd Kern (Unit {0})
release_other s = elim (Spinlock.popcli s.held.cpu) [
  | ok _ c ↦ ok tt (record s { held = record (s.held) { cpu = c } })
  | panic why ↦ panic why
  | fault ↦ fault
  | out_of_fuel ↦ out_of_fuel
]

unfoldable pub acquire_other : Cmd Kern (Unit {0})
acquire_other s = ok tt (record s { held = record (s.held) { cpu = Spinlock.pushcli s.held.cpu } })

unfoldable pub sleep_lock : LockArg → Cmd Kern (Unit {0})
sleep_lock ptable_lock = pure tt
sleep_lock no_lock = acquire
sleep_lock other_lock = do acquire; release_other

unfoldable pub sleep_unlock : LockArg → Cmd Kern (Unit {0})
sleep_unlock ptable_lock = pure tt
sleep_unlock no_lock = release
sleep_unlock other_lock = do release; acquire_other

-- `sleep` with ptable.lock held, up to its call of sched.
unfoldable pub sleep_begin : Chan → Cmd Kern (Unit {0})
sleep_begin chan = do
  s ← fetch
  assign s.current (λ q. charge s.ticks (record q { chan = chan; state = sleeping }))
  relist running_list sleep_list s.current "error removing from running list."
      "error adding to sleep list."
  assert_state s.current sleeping
  pure tt

unfoldable pub sleep : Chan → LockArg → (elsewhere : Kern → Kern) → Cmd Kern (Unit {0})
sleep chan lk elsewhere = do
  s ← fetch
  panic_if (s.current == null) "sleep"
  sleep_lock lk
  sleep_begin chan
  sched elsewhere
  t ← fetch
  assign t.current (λ q. record q { chan = no_chan })
  sleep_unlock lk

-- One round of the scheduler's inner loop: process `p` of the list ready[i] runs until it comes back.
unfoldable pub dispatch_begin : ℕ → Ptr → Cmd Kern (Unit {0})
unfolding call
dispatch_begin i p = do
  modify (λ k. record k { current = p })
  call (switchuvm p)
  assign p (λ q. record q { state = running })
  relist (ready i) running_list p "problem with removing from ready list."
      "problem with adding to running list."
  assert_state p running
  s ← fetch
  assign p (λ q. record q { cpu_ticks_in = s.ticks })

unfoldable pub dispatch_end : Ptr → Cmd Kern (Unit {0})
dispatch_end p = do
  s ← fetch
  assign p
      (λ q. record q { cpu_ticks_total = add32 q.cpu_ticks_total (sub32 s.ticks q.cpu_ticks_in) })
  call switchkvm
  modify (λ k. record k { current = null })

unfoldable pub dispatch : ℕ → Ptr → (elsewhere : Kern → Kern) → Cmd Kern (Unit {0})
dispatch i p elsewhere = do dispatch_begin i p; call (swtch_to p); modify elsewhere; dispatch_end p
