-- ===== src/Proc/Kill.antt =====
-- kill of proc.c.
pub mod Invariant
use cs.Prelude.{ℕ, ◌+◌, Bool, List, [], ◌∷◌, ◌++◌, ◌==◌, if◌then◌else◌}
use cs.Prelude.Int.{ℤ, pos, negsuc}
use cs.Prelude.Run.{Cmd, pure, ◌>>=◌, ◌>>◌}
use cs.Proc.Table.{
  Ptr, null, nproc, runnable, Proc, ListName, ready, sleep_list, zombie_list, running_list,
  embryo_list, Kern, deref, assign, read_ends, acquire, release,
}
use cs.Proc.Lists.{relist, assert_state}
use cs.Proc.Scan.{scan, scan_lists, ready_lists}

-- Both compared as 32-bit patterns.
abbrev pub has_pid : ℕ → Proc → Bool
has_pid pid q = q.pid == pid

-- The lists that are searched before the sleep list.
abbrev pub awake_lists : List ListName
awake_lists = ready_lists ++ (running_list ∷ embryo_list ∷ zombie_list ∷ [])

-- The loop over the sleep list: a process that is found there becomes ready.
unfoldable pub kill_sleeper : ℕ → Cmd Kern Ptr
kill_sleeper pid = do
  e ← read_ends sleep_list
  p ← scan (nproc + 1) (has_pid pid) e.head
  if p == null then pure null else do
    q ← deref p
    relist sleep_list (ready q.priority) p "error removing from sleep list."
        "error adding to ready list."
    assign p (λ r. record r { state = runnable })
    assert_state p runnable
    pure p

-- From the label `found` on, or to the end without it.
unfoldable pub kill_found : Ptr → Cmd Kern ℤ
kill_found p =
    if p == null
    then (do release; pure (negsuc 0))
    else (do assign p (λ q. record q { killed = 1 }); release; pure (pos 0))

unfoldable pub kill : ℕ → Cmd Kern ℤ
kill pid = do
  acquire
  p ← scan_lists awake_lists (has_pid pid)
  q ← (if p == null then kill_sleeper pid else pure p)
  kill_found q
