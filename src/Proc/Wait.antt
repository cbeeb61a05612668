-- ===== src/Proc/Wait.antt =====
-- wait of proc.c.
pub mod Reap
use Prim.Native.String.{String}
use cs.Prelude.{ℕ, zero, suc, ◌+◌, Bool, List, [], ◌∷◌, ◌++◌, ◌==◌, not, if◌then◌else◌}
use cs.Prelude.Int.{ℤ, pos, negsuc, to_int}
use cs.Prelude.Run.{Cmd, out_of_fuel, pure, fetch, ◌>>=◌, ◌>>◌}
use cs.Bytes.{poke}
use cs.Proc.Table.{
  Ptr, null, nproc, unused, chan_of, Proc, ListName, free_list, zombie_list, running_list,
  sleep_list, embryo_list, Call, kfree, freevm, Kern, deref, assign, read_ends, call, acquire,
  release,
}
use cs.Proc.Lists.{relist, assert_state}
use cs.Proc.Scan.{scan, scan_lists, ready_lists}
use cs.Proc.Sched.{sleep, ptable_lock}

abbrev pub is_child : Ptr → Proc → Bool
is_child parent q = q.parent == parent

-- The lists that are searched for living children.
abbrev pub living_lists : List ListName
living_lists = ready_lists ++ (sleep_list ∷ embryo_list ∷ running_list ∷ [])

-- A zombie child becomes a free process.
unfoldable pub reap : Ptr → Cmd Kern ℤ
unfolding call
reap p = do
  q ← deref p
  call (kfree q.kstack)
  assign p (λ q. record q { kstack = 0 })
  call (freevm q.pgdir)
  assign p (λ q. record q { state = unused })
  relist zombie_list free_list p "Error removing from zombie list." "Error adding to free list."
  assert_state p unused
  assign p (λ q. record q { pid = 0; parent = null; name = poke q.name 0 0; killed = 0 })
  release
  pure (to_int q.pid)

-- What a round of the loop decides: to return, or to sleep.
pub data Round : Type 0 where
  done : ℤ → Round
  must_sleep : Round

abbrev pub give_up : Cmd Kern Round
give_up = do release; pure (done (negsuc 0))

-- The loops over the living processes, and the test after the label `kids`.
unfoldable pub wait_living : Cmd Kern Round
wait_living = do
  s ← fetch
  p ← scan_lists living_lists (is_child s.current)
  if p == null
      then give_up
      else (do me ← deref s.current; if not (me.killed == 0) then give_up else pure must_sleep)

-- One round of `for(;;)`, up to the call of sleep.
unfoldable pub wait_round : Cmd Kern Round
wait_round = do
  s ← fetch
  e ← read_ends zombie_list
  p ← scan (nproc + 1) (is_child s.current) e.head
  if p == null then wait_living else (do r ← reap p; pure (done r))

-- At most `k` rounds; `elsewhere` is what happens during each sleep.
unfoldable pub wait_loop : (elsewhere : ℕ → Kern → Kern) → ℕ → Cmd Kern ℤ
wait_loop elsewhere zero = λ _. out_of_fuel
wait_loop elsewhere (suc k) = do
  r ← wait_round
  (elim r [
    | done n ↦ pure n
    | must_sleep ↦ (do
      s ← fetch
      sleep (chan_of s.current) ptable_lock (elsewhere k)
      wait_loop elsewhere k)
  ])

unfoldable pub wait : (elsewhere : ℕ → Kern → Kern) → ℕ → Cmd Kern ℤ
wait elsewhere k = do acquire; wait_loop elsewhere k
