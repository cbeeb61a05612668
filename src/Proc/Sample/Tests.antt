-- ===== src/Proc/Sample/Tests.antt =====
-- The theorems about the process table at the sample table.
use cs.Prelude.{◌⊎◌, ◌≡◌, refl, [], ◌∷◌, arith}
use cs.Prelude.Int.{pos}
use cs.Prelude.Run.{Yields}
use cs.Proc.Table.{
  runnable, running, Proc, Kern, other_chan, free_list, running_list, sleep_list, ready,
  embryo_list,
}
use cs.Proc.Table.Lock.{IsFree, taken, given_back, taken-IsHeld}
use cs.Proc.StateList.{state_list_add, state_list_remove}
use cs.Proc.StateList.Add.{Added, state_list_add-append}
use cs.Proc.StateList.Remove.{Removed, state_list_remove-erase}
use cs.Proc.Lists.Moves.{Inv, move}
use cs.Proc.Lists.Updates.{Inv-same}
use cs.Proc.Alloc.{allocproc}
use cs.Proc.Alloc.Invariant.{Found, allocproc-Inv}
use cs.Proc.Sched.{yield_begin, dispatch_begin}
use cs.Proc.Sched.Budget.{Charged}
use cs.Proc.Sched.Invariant.{Yielded, yield_begin-Yielded, dispatch_begin-Inv}
use cs.Proc.Wakeup.{wakeup1}
use cs.Proc.Wakeup.First.{FirstWoken, wakeup1-first}
use cs.Proc.Kill.{kill}
use cs.Proc.Kill.Invariant.{Killed, kill-Killed}
use cs.Proc.Priority.{setpriority}
use cs.Proc.Priority.Cases.{PrioritySet, setpriority-PrioritySet}
use cs.Proc.Wait.{wait_round}
use cs.Proc.Wait.Reap.{Waited, wait_round-Waited}
use cs.Proc.Exit.{exit_begin}
use cs.Proc.Exit.Invariant.{ExitBegun, exit_begin-Left}
use cs.Proc.Fork.{fork}
use cs.Proc.Fork.Invariant.{Forked, fork-Forked}
use cs.Proc.Init.{userinit}
use cs.Proc.Init.FreeList.{freed}
use cs.Proc.Init.First.{Launched, userinit-Launched}
use cs.Proc.Whole.{wakeup1_whole}
use cs.Proc.Whole.Wake.{AllWoken, wakeup1_whole-AllWoken}
use cs.Proc.Sample.{kern, members, kern-Inv}

free : IsFree kern.held
free = record { not_held = refl; no_cli = refl }

-- The same with ptable.lock held.
abbrev locked : Kern
locked = record kern { held = taken kern.held }

-- The same with the lock held and the running process about to sleep.
abbrev parked : Kern
parked = record locked { current = 4 }

allocproc-Inv_example :
    Yields
      (λ r t.
        ((r ≡ 0)
          × (members free_list ≡ [])
          × (t ≡ record kern { held = given_back (taken kern.held) }))
        ⊎ Found locked members 6 8192 r t)
      (allocproc 8192 kern)
allocproc-Inv_example = allocproc-Inv kern members 8192 kern-Inv free

kill-Killed_example :
    Yields
      (λ r t. Killed locked members 2 r t × (t.held ≡ given_back (taken kern.held)))
      (kill 2 kern)
kill-Killed_example = kill-Killed kern members 2 kern-Inv free

setpriority-PrioritySet_example :
    Yields (PrioritySet locked members 4 1) (setpriority (pos 4) (pos 1) kern)
setpriority-PrioritySet_example =
    setpriority-PrioritySet kern members 4 1 kern-Inv free (omega arith)

wakeup1-first_example : Yields (λ _ t. FirstWoken kern members 1 t) (wakeup1 (other_chan 9) kern)
wakeup1-first_example = wakeup1-first (other_chan 9) kern members kern-Inv

state_list_remove-erase_example :
    Yields
      (λ r t. (r ≡ pos 0) × Removed kern t sleep_list (1 ∷ 2 ∷ []) 2)
      (state_list_remove sleep_list 2 kern)
state_list_remove-erase_example =
    state_list_remove-erase sleep_list 2 kern (1 ∷ 2 ∷ []) refl
      (kern-Inv.lists.queue sleep_list refl) (kern-Inv.lists.distinct sleep_list) (omega arith) refl

state_list_add-append_example :
    Yields
      (λ r t. (r ≡ pos 0) × Added kern t sleep_list (1 ∷ 2 ∷ []) 7)
      (state_list_add sleep_list 7 kern)
state_list_add-append_example =
    state_list_add-append sleep_list 7 kern (1 ∷ 2 ∷ []) refl (kern-Inv.lists.queue sleep_list refl)
      (kern-Inv.lists.distinct sleep_list) refl (omega arith)

yield_begin-Yielded_example :
    Yields
      (λ _ t.
        (q : Proc) × Charged 40 (record (kern.procs 3) { state = runnable }) q
        × Yielded kern t members 3 q)
      (yield_begin kern)
yield_begin-Yielded_example = yield_begin-Yielded kern members kern-Inv free refl

dispatch_begin-Inv_example :
    Yields
      (λ _ t.
        Inv t (move members (ready 2) running_list 4)
        × ((t.procs 4).state ≡ running)
        × ((t.procs 4).cpu_ticks_in ≡ 40)
        × (t.current ≡ 4)
        × (t.held ≡ kern.held))
      (dispatch_begin 2 4 kern)
dispatch_begin-Inv_example = dispatch_begin-Inv kern members 2 4 kern-Inv (omega arith) refl

wait_round-Waited_example : Yields (Waited locked members) (wait_round locked)
wait_round-Waited_example =
    wait_round-Waited locked members (Inv-same kern locked members kern-Inv refl refl)
      (taken-IsHeld kern.held) (omega arith)

exit_begin-Left_example : Yields (λ _ t. ExitBegun kern members t) (exit_begin kern)
exit_begin-Left_example = exit_begin-Left kern members kern-Inv free refl refl

fork-Forked_example :
    Yields
      (λ r t. Forked kern members 6 8192 4096 r t × (t.held ≡ given_back (taken kern.held)))
      (fork 8192 4096 kern)
fork-Forked_example = fork-Forked kern members 8192 4096 kern-Inv free refl

userinit-Launched_example :
    Yields
      (λ _ t.
        Inv t (move (move (freed 64) free_list embryo_list 1) embryo_list (ready 0) 1)
        × Launched t 1 4096 7
        × (t.held ≡ given_back (taken kern.held)))
      (userinit 8192 4096 7 (λ _. 0) kern)
userinit-Launched_example =
    userinit-Launched kern 8192 4096 7 (λ _. 0) free kern-Inv.prios (omega arith) (omega arith)

wakeup1_whole-AllWoken_example :
    Yields (λ _ t. AllWoken kern t (other_chan 9) 64 1) (wakeup1_whole (other_chan 9) kern)
wakeup1_whole-AllWoken_example = wakeup1_whole-AllWoken (other_chan 9) kern
