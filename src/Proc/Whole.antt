-- ===== src/Proc/Whole.antt =====
-- The build without state lists (CS333_P3P4 not defined): wakeup1, kill, wait and exit of proc.c
-- there, and the pass of scheduler, which go through the whole process table.
pub mod Wake
use Prim.Native.String.{String}
use cs.Prelude.{ℕ, zero, suc, ◌+◌, Bool, true, false, not, ◌&&◌, ◌||◌, ◌==◌, if◌then◌else◌}
use cs.Prelude.Int.{ℤ, pos, negsuc, to_int}
use cs.Prelude.Run.{Cmd, out_of_fuel, pure, panic, fetch, modify, ◌>>=◌, ◌>>◌}
use cs.Bytes.{poke}
use cs.Proc.Table.{
  Ptr, null, nproc, unused, sleeping, runnable, running, zombie, Chan, no_chan, chan_eq, chan_of,
  state_eq, Proc, Call, kfree, freevm, switchuvm, switchkvm, swtch_to, Kern, deref, assign, call,
  panic_if, acquire, release, add32, sub32,
}
use cs.Proc.Sched.{sched}
use cs.Proc.Wait.{Round, done, must_sleep}
use cs.Proc.Exit.{exit_files}

-- `p->state == SLEEPING && p->chan == chan`
abbrev pub sleeps_on : Chan → Proc → Bool
sleeps_on chan q = state_eq q.state sleeping && chan_eq q.chan chan

-- The loop from process `p` on, `k` of them.
unfoldable pub wake_from : ℕ → Chan → Ptr → Cmd Kern (Unit {0})
wake_from zero chan p = pure tt
wake_from (suc k) chan p = do
  q ← deref p
  if sleeps_on chan q then assign p (λ r. record r { state = runnable }) else pure tt
  wake_from k chan (p + 1)

unfoldable pub wakeup1_whole : Chan → Cmd Kern (Unit {0})
wakeup1_whole chan = wake_from nproc chan 1

-- A process that has the pid is killed, and made runnable if it sleeps.
unfoldable pub mark_killed : Proc → Proc
mark_killed q = record q {
  killed = 1;
  state = if state_eq q.state sleeping then runnable else q.state;
}

unfoldable pub kill_from : ℕ → ℕ → Ptr → Cmd Kern ℤ
kill_from zero pid p = do release; pure (negsuc 0)
kill_from (suc k) pid p = do
  q ← deref p
  if q.pid == pid then (do assign p mark_killed; release; pure (pos 0)) else kill_from k pid (p + 1)

unfoldable pub kill_whole : ℕ → Cmd Kern ℤ
kill_whole pid = do acquire; kill_from nproc pid 1

-- The loop of exit over the children.
unfoldable pub abandon_one : Ptr → Ptr → Ptr → Cmd Kern (Unit {0})
abandon_one me init p = do
  q ← deref p
  if q.parent == me
      then (do
        assign p (λ r. record r { parent = init })
        if state_eq q.state zombie then wakeup1_whole (chan_of init) else pure tt)
      else pure tt

unfoldable pub abandon_from : ℕ → Ptr → Ptr → Ptr → Cmd Kern (Unit {0})
abandon_from zero me init p = pure tt
abandon_from (suc k) me init p = do abandon_one me init p; abandon_from k me init (p + 1)

unfoldable pub exit_whole_begin : Cmd Kern (Unit {0})
exit_whole_begin = do
  s ← fetch
  panic_if (s.current == s.initproc) "init exiting"
  exit_files s.current
  acquire
  q ← deref s.current
  wakeup1_whole (chan_of q.parent)
  abandon_from nproc s.current s.initproc 1
  assign s.current (λ r. record r { state = zombie })

unfoldable pub exit_whole : (elsewhere : Kern → Kern) → Cmd Kern (Unit {0})
exit_whole elsewhere = do exit_whole_begin; sched elsewhere; λ _. panic "zombie exit"

-- A runnable process runs until it comes back.
unfoldable pub run_one : Ptr → (elsewhere : Kern → Kern) → Cmd Kern (Unit {0})
run_one p elsewhere = do
  modify (λ k. record k { current = p })
  call (switchuvm p)
  assign p (λ q. record q { state = running })
  s ← fetch
  assign p (λ q. record q { cpu_ticks_in = s.ticks })
  call (swtch_to p)
  modify elsewhere
  t ← fetch
  assign t.current
      (λ q. record q { cpu_ticks_total = add32 q.cpu_ticks_total (sub32 t.ticks q.cpu_ticks_in) })
  call switchkvm
  modify (λ k. record k { current = null })

-- One pass of the scheduler over the table; the result is whether no process was runnable.
unfoldable pub pass_from : (elsewhere : ℕ → Kern → Kern) → ℕ → Bool → Ptr → Cmd Kern Bool
pass_from elsewhere zero idle p = pure idle
pass_from elsewhere (suc k) idle p = do
  q ← deref p
  if state_eq q.state runnable
      then (do run_one p (elsewhere k); pass_from elsewhere k false (p + 1))
      else pass_from elsewhere k idle (p + 1)

unfoldable pub pass : (elsewhere : ℕ → Kern → Kern) → Cmd Kern Bool
pass elsewhere = do acquire; idle ← pass_from elsewhere nproc true 1; release; pure idle

-- A zombie child becomes a free process.
unfoldable pub reap_whole : Ptr → Cmd Kern ℤ
reap_whole p = do
  q ← deref p
  call (kfree q.kstack)
  assign p (λ q. record q { kstack = 0 })
  call (freevm q.pgdir)
  assign p
      (λ q. record q { state = unused; pid = 0; parent = null; name = poke q.name 0 0; killed = 0 })
  release
  pure (to_int q.pid)

-- One round of wait, from process `p` on; `havekids` is whether a child has been seen.
unfoldable pub wait_from : ℕ → Bool → Ptr → Cmd Kern Round
wait_from zero havekids p = do
  s ← fetch
  me ← deref s.current
  if not havekids || not (me.killed == 0)
      then (do release; pure (done (negsuc 0)))
      else pure must_sleep
wait_from (suc k) havekids p = do
  s ← fetch
  q ← deref p
  if not (q.parent == s.current)
      then wait_from k havekids (p + 1)
      else if state_eq q.state zombie
      then (do r ← reap_whole p; pure (done r))
      else wait_from k true (p + 1)

-- sleep, called with ptable.lock.
unfoldable pub sleep_whole : Chan → (elsewhere : Kern → Kern) → Cmd Kern (Unit {0})
sleep_whole chan elsewhere = do
  s ← fetch
  panic_if (s.current == null) "sleep"
  assign s.current (λ q. record q { chan = chan; state = sleeping })
  sched elsewhere
  t ← fetch
  assign t.current (λ q. record q { chan = no_chan })

-- At most `k` rounds; `elsewhere` is what happens during each sleep.
unfoldable pub wait_whole_loop : (elsewhere : ℕ → Kern → Kern) → ℕ → Cmd Kern ℤ
wait_whole_loop elsewhere zero = λ _. out_of_fuel
wait_whole_loop elsewhere (suc k) = do
  r ← wait_from nproc false 1
  (elim r [
    | done n ↦ pure n
    | must_sleep ↦ (do
      s ← fetch
      sleep_whole (chan_of s.current) (elsewhere k)
      wait_whole_loop elsewhere k)
  ])

unfoldable pub wait_whole : (elsewhere : ℕ → Kern → Kern) → ℕ → Cmd Kern ℤ
wait_whole elsewhere k = do acquire; wait_whole_loop elsewhere k
