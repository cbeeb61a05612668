-- ===== src/Proc/StateList.antt =====
-- stateListAdd and stateListRemove of proc.c: singly linked queues threaded through `p->next`.
pub mod Queue
pub mod Add
pub mod Remove
use cs.Prelude.{ℕ, zero, suc, ◌+◌, ◌||◌, ◌==◌, if◌then◌else◌}
use cs.Prelude.Int.{ℤ, pos, negsuc}
use cs.Prelude.Run.{Cmd, out_of_fuel, pure, ◌>>=◌, ◌>>◌}
use cs.Proc.Table.{Ptr, null, nproc, Ends, Kern, ListName, deref, assign, read_ends, write_ends}

unfoldable pub state_list_add : ListName → Ptr → Cmd Kern ℤ
unfolding deref assign read_ends write_ends
state_list_add n p = do
  e ← read_ends n
  if e.head == null
      then (do
        write_ends n (record { head = p; tail = p })
        assign p (λ q. record q { next = null })
        pure (pos 0))
      else (do
        assign e.tail (λ q. record q { next = p })
        t ← deref e.tail
        write_ends n (record e { tail = t.next })
        assign t.next (λ q. record q { next = null })
        pure (pos 0))

-- The `while (current)` loop: the node before `p`, and `p`, or null where the list has no `p`.
unfoldable pub walk : ℕ → Ptr → Ptr → Ptr → Cmd Kern (Ptr × Ptr)
unfolding deref
walk zero previous current p = λ _. out_of_fuel
walk (suc k) previous current p =
    if current == null
    then pure (previous, null)
    else if current == p
    then pure (previous, current)
    else (do c ← deref current; walk k current c.next p)

-- The writes after the loop has found `p`.
unfoldable pub unlink : ListName → Ends → Ptr → Ptr → Ptr → Cmd Kern ℤ
unfolding deref assign write_ends
unlink n e previous current p = do
  if current == e.tail
      then (do
        write_ends n (record e { tail = previous })
        assign previous (λ q. record q { next = null }))
      else (do c ← deref current; assign previous (λ q. record q { next = c.next }))
  assign p (λ q. record q { next = null })
  pure (pos 0)

unfoldable pub state_list_remove : ListName → Ptr → Cmd Kern ℤ
unfolding deref read_ends write_ends
state_list_remove n p = do
  e ← read_ends n
  if (e.head == null) || (e.tail == null) || (p == null)
      then pure (negsuc 0)
      else if e.head == p
      then (do h ← deref e.head; write_ends n (record e { head = h.next }); pure (pos 0))
      else (do
        (previous, current) ← walk (nproc + 1) null e.head p
        if current == null then pure (negsuc 0) else unlink n e previous current p)
