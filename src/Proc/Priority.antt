-- ===== src/Proc/Priority.antt =====
-- setpriority and promoteAll of proc.c.
pub mod Set
pub mod Cases
use cs.Prelude.{
  ℕ, zero, suc, ◌+◌, ◌-◌, ◌*◌, Bool, true, false, not, ◌&&◌, List, [], ◌∷◌, ◌==◌, ltb,
  if◌then◌else◌,
}
use cs.Prelude.Int.{ℤ, pos, negsuc, is_nonzero}
use cs.Prelude.Run.{Cmd, out_of_fuel, pure, fetch, modify, ◌>>=◌, ◌>>◌}
use cs.Proc.Table.{
  Ptr, null, nproc, maxprio, initial_budget, ticks_to_promote, Proc, ListName, ready, sleep_list,
  running_list, Kern, deref, assign, read_ends, panic_if, acquire, release, add32, sub32,
}
use cs.Proc.StateList.{state_list_add, state_list_remove}
use cs.Proc.Scan.{scan_lists, ready_lists}
use cs.Proc.Kill.{has_pid}

-- `p->budget = BUDGET*(p->priority+1)`
abbrev pub full_budget : Proc → Proc
full_budget q = record q { budget = initial_budget * (q.priority + 1) }

-- The process that the first loop of setpriority looks for.
abbrev pub to_change : ℕ → ℕ → Proc → Bool
to_change pid priority q = (q.pid == pid) && not (priority == q.priority)

-- A ready process changes its list with its priority.
unfoldable pub set_ready : ℕ → Ptr → Cmd Kern ℤ
set_ready priority p = do
  q ← deref p
  r ← state_list_remove (ready q.priority) p
  panic_if (is_nonzero r) "Error removing process from current priority"
  assign p (λ q. record q { priority = priority })
  a ← state_list_add (ready priority) p
  panic_if (is_nonzero a) "Error adding process to current priority"
  assign p full_budget
  release
  pure (pos 0)

-- The loops over the sleeping and the running processes.
unfoldable pub set_other : ℕ → ℕ → Cmd Kern ℤ
set_other pid priority = do
  p ← scan_lists (sleep_list ∷ running_list ∷ []) (has_pid pid)
  if p == null then (do release; pure (negsuc 0)) else (do
    assign p (λ q. full_budget (record q { priority = priority }))
    release
    pure (pos 0))

unfoldable pub set_found : ℕ → ℕ → Cmd Kern ℤ
set_found pid priority = do
  acquire
  p ← scan_lists ready_lists (to_change pid priority)
  if p == null then set_other pid priority else set_ready priority p

-- setpriority, with the test of its arguments.
unfoldable pub setpriority : ℤ → ℤ → Cmd Kern ℤ
setpriority (pos pid) (pos priority) =
    if ltb (maxprio + 1) priority then pure (negsuc 0) else set_found pid priority
setpriority (pos pid) (negsuc _) = pure (negsuc 0)
setpriority (negsuc _) _ = pure (negsuc 0)

-- One round of promoteAll's loop over ready[i].
unfoldable pub promote_ready : ℕ → Ptr → Cmd Kern (Unit {0})
promote_ready zero p = assign p full_budget
promote_ready (suc i) p = do
  q ← deref p
  r ← state_list_remove (ready q.priority) p
  panic_if (is_nonzero r) "Error removing process from current priority"
  assign p (λ q. record q { priority = sub32 q.priority 1 })
  q ← deref p
  a ← state_list_add (ready q.priority) p
  panic_if (is_nonzero a) "Error adding process to desired priority"
  assign p full_budget

-- `if(p->priority > 0) p->priority -= 1;`
abbrev pub lowered : Proc → Proc
lowered q = record q { priority = if ltb 0 q.priority then q.priority - 1 else q.priority }

-- The loops over a ready list, and over the sleeping and running processes.
unfoldable pub promote_level : ℕ → ℕ → Ptr → Cmd Kern (Unit {0})
promote_level zero i p = λ _. out_of_fuel
promote_level (suc k) i p =
    if p == null then pure tt else (do promote_ready i p; q ← deref p; promote_level k i q.next)

unfoldable pub promote_others : ℕ → Ptr → Cmd Kern (Unit {0})
promote_others zero p = λ _. out_of_fuel
promote_others (suc k) p =
    if p == null
    then pure tt
    else (do assign p (λ q. full_budget (lowered q)); q ← deref p; promote_others k q.next)

-- Levels i, i + 1, …, n of them.
unfoldable pub promote_levels : ℕ → ℕ → Cmd Kern (Unit {0})
promote_levels zero i = pure tt
promote_levels (suc n) i = do
  e ← read_ends (ready i)
  promote_level (nproc + 1) i e.head
  promote_levels n (i + 1)

unfoldable pub promote_all : Cmd Kern (Unit {0})
promote_all = do
  promote_levels (maxprio + 1) 0
  e ← read_ends sleep_list
  promote_others (nproc + 1) e.head
  e ← read_ends running_list
  promote_others (nproc + 1) e.head

-- The scheduler's test at the start of a pass.
unfoldable pub promote_if_due : Cmd Kern (Unit {0})
promote_if_due = do
  s ← fetch
  if ltb s.ticks s.promote_at
      then pure tt
      else (do promote_all; modify (λ k. record k { promote_at = add32 s.ticks ticks_to_promote }))
