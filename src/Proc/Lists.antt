-- ===== src/Proc/Lists.antt =====
-- The state lists together: which processes each list holds, the moves between lists that the
-- operations of proc.c make, and assertState.
pub mod Members
pub mod Moves
pub mod Joins
pub mod Updates
pub mod Change
use Prim.Native.String.{String}
use cs.Prelude.{ℕ, Bool, true, false, ◌+◌, ◌-◌, if◌then◌else◌, not}
use cs.Prelude.Int.{is_nonzero}
use cs.Prelude.Run.{Cmd, ok, panic, pure, ◌>>=◌, ◌>>◌}
use cs.Proc.Table.{
  Ptr, Procstate, unused, embryo, sleeping, runnable, running, zombie, Proc, ListName, ready,
  free_list, sleep_list, zombie_list, running_list, embryo_list, Kern, deref, panic_if, state_eq,
}
use cs.Proc.StateList.{state_list_add, state_list_remove}

-- The list on which a process in its state belongs.
unfoldable pub home_of : Procstate → ℕ → ListName
home_of unused i = free_list
home_of embryo i = embryo_list
home_of sleeping i = sleep_list
home_of runnable i = ready i
home_of running i = running_list
home_of zombie i = zombie_list

abbrev pub home : Proc → ListName
home p = home_of p.state p.priority

-- `if(stateListRemove(…)) panic(…); if(stateListAdd(…)) panic(…);`
unfoldable pub relist : ListName → ListName → Ptr → String → String → Cmd Kern (Unit {0})
relist from to p not_removed not_added = do
  r ← state_list_remove from p
  panic_if (is_nonzero r) not_removed
  a ← state_list_add to p
  panic_if (is_nonzero a) not_added

-- The same with both results ignored.
unfoldable pub relist_unchecked : ListName → ListName → Ptr → Cmd Kern (Unit {0})
relist_unchecked from to p = do _ ← state_list_remove from p; _ ← state_list_add to p; pure tt

unfoldable pub assert_state : Ptr → Procstate → Cmd Kern (Unit {0})
unfolding deref state_eq
assert_state p state = do
  q ← deref p
  panic_if (not (state_eq q.state state)) "proc state does not match list state."
