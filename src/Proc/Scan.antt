-- ===== src/Proc/Scan.antt =====
-- The `for(p = list; p; p = p->next) if(test) goto found;` loops of proc.c.
pub mod First
use cs.Prelude.{ℕ, zero, suc, ◌+◌, Bool, List, [], ◌∷◌, ◌==◌, if◌then◌else◌}
use cs.Prelude.Run.{Cmd, out_of_fuel, pure, ◌>>=◌}
use cs.Proc.Table.{
  Ptr, null, nproc, Proc, ListName, ready, sleep_list, zombie_list, running_list, embryo_list, Kern,
  deref, read_ends,
}

-- The first process from `p` on that passes the test, or null.
unfoldable pub scan : ℕ → (Proc → Bool) → Ptr → Cmd Kern Ptr
unfolding deref
scan zero test p = λ _. out_of_fuel
scan (suc k) test p =
    if p == null then pure null else (do q ← deref p; if test q then pure p else scan k test q.next)

-- The loops over several lists, one after the other.
unfoldable pub scan_lists : List ListName → (Proc → Bool) → Cmd Kern Ptr
scan_lists [] test = pure null
scan_lists (n ∷ ns) test = do
  e ← read_ends n
  p ← scan (nproc + 1) test e.head
  if p == null then scan_lists ns test else pure p

abbrev pub ready_lists : List ListName
ready_lists = ready 0 ∷ ready 1 ∷ ready 2 ∷ ready 3 ∷ ready 4 ∷ ready 5 ∷ ready 6 ∷ []
