-- ===== src/Proc/Wakeup.antt =====
-- wakeup1 and wakeup of proc.c.
pub mod First
use Prim.Native.String.{String}
use cs.Prelude.{ℕ, zero, suc, ◌+◌, Bool, true, false, ◌==◌, if◌then◌else◌}
use cs.Prelude.Run.{Cmd, out_of_fuel, pure, fetch, ◌>>=◌, ◌>>◌}
use cs.Proc.Table.{
  Ptr, null, nproc, runnable, Chan, chan_eq, Proc, ready, sleep_list, Kern, deref, assign, acquire,
  release,
}
use cs.Proc.Lists.{relist, assert_state}

-- A sleeping process becomes ready.
unfoldable pub wake : Ptr → Cmd Kern (Unit {0})
wake p = do
  q ← deref p
  assign p (λ q. record q { state = runnable })
  relist sleep_list (ready q.priority) p "error removing from sleep list."
      "error adding to ready list."
  assert_state p runnable
  pure tt

-- The `while(p)` loop.
unfoldable pub wake_loop : ℕ → Chan → Ptr → Cmd Kern (Unit {0})
wake_loop zero chan p = λ _. out_of_fuel
wake_loop (suc k) chan p = if p == null then pure tt else (do
  q ← deref p
  if chan_eq q.chan chan then wake p else pure tt
  r ← deref p
  wake_loop k chan r.next)

unfoldable pub wakeup1 : Chan → Cmd Kern (Unit {0})
wakeup1 chan = do s ← fetch; wake_loop (nproc + 1) chan (s.ends sleep_list).head

unfoldable pub wakeup : Chan → Cmd Kern (Unit {0})
wakeup chan = do acquire; wakeup1 chan; release
