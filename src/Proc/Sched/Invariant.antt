-- ===== src/Proc/Sched/Invariant.antt =====
-- yield, sleep and the scheduler's dispatch keep the invariant of the process table, and reach
-- their swtch with the lock held.
use cs.Prelude.{◌∷◌, ℕ, ◌≤◌, ◌≡◌, refl, ap, ◌≢◌, true, false, ==_refl, ==_ne}
use cs.Prelude.Finite.{has}
use cs.Prelude.Run.{Yields, yields}
use cs.Proc.Table.{
  switchuvm, Ptr, null, maxprio, sleeping, runnable, running, Chan, Proc, ready, sleep_list,
  running_list, to_scheduler, Kern, state_eq, deref, call,
}
use cs.Proc.Table.Lock.{IsFree, IsHeld, taken, acquire-ok}
use cs.Proc.Lists.{home_of}
use cs.Proc.Lists.Members.{Members, SameBut}
use cs.Proc.Lists.Moves.{Inv, Pending, move, relist_unchecked-Inv}
use cs.Proc.Lists.Updates.{Inv-Entry, Inv-same, assign-ok, deref-ok}
use cs.Proc.Lists.Change.{Changed, Changed-self, change_by, change_then, on-ne_null, held-SameBut}
use cs.Proc.Sched.{sched, charge, relist_ready, yield_begin, sleep_begin, dispatch_begin}
use cs.Proc.Sched.Budget.{is_list-ready, charge_bounds, charge_keeps, Charged, charge-Charged}

relist_ready-Inv :
    (s : Kern) (L : Members) (p : Ptr) (i : ℕ)
    → Pending s L p (ready i)
    → p ≢ null
    → (s.procs p).priority ≡ i
    → i ≤ maxprio
    → has p (L running_list) ≡ true
    → Yields (λ _ t. Inv t (move L running_list (ready i) p) × SameBut s t) (relist_ready p s)
unfolding relist_ready
relist_ready-Inv s L p i pending np e small on =
    rw (deref-ok s p np, e)
      (relist_unchecked-Inv s L p running_list (ready i) pending refl (is_list-ready i small) on)

-- What yield has written when it calls sched.
pub record Yielded (s t : Kern) (L : Members) (p : Ptr) (q : Proc) : Type 0 where
  pub inv : Inv t (move L running_list (ready q.priority) p)
  pub changed : Changed (record s { held = taken s.held }) t p q
  pub held : t.held ≡ taken s.held

-- yield up to its call of sched: the running process becomes runnable and is charged for its run: what is
-- left of its budget is its new budget, where that is positive, and otherwise it goes down one priority,
-- if there is a lower one, and gets the full budget of its priority. It goes to the end of the ready list
-- of its new priority; no other process changes but for links, the table invariant holds, and the lock is
-- held.
pub yield_begin-Yielded :
    (s : Kern) (L : Members)
    → Inv s L
    → IsFree s.held
    → has s.current (L running_list) ≡ true
    → Yields
        (λ _ t.
          (q : Proc) × Charged s.ticks (record (s.procs s.current) { state = runnable }) q
          × Yielded s t L s.current q)
        (yield_begin s)
unfolding yield_begin home_of
yield_begin-Yielded s L v free i =
    let p = s.current in
    let s1 : Kern = record s { held = taken s.held } in
    let f = λ (q : Proc). charge s.ticks (record q { state = runnable }) in
    let q : Proc = f (s.procs p) in
    let keeps = charge_keeps s.ticks (record (s.procs p) { state = runnable }) in
    let small = charge_bounds s.ticks (record (s.procs p) { state = runnable }) (v.prios p) in
    let np = on-ne_null s L running_list p v i in
    rw (acquire-ok s free) (
      change_by s1 L p running_list (ready q.priority) f (relist_ready p) runnable _
        (Inv-same s s1 L v refl refl) i keeps.0 (rw keeps.1 refl) small.4 keeps.1
        (λ pending. relist_ready-Inv _ L p q.priority pending np (rw (==_refl p) refl) small.4 i)
        λ t v' d. yields (
          q,
          charge-Charged s.ticks (record (s.procs p) { state = runnable }) (v.prios p),
          record { inv = v'; changed = d; held = held-SameBut _ t d },
        ))

-- What sleep has written when it calls sched.
pub record Asleep (s t : Kern) (L : Members) (p : Ptr) (q : Proc) : Type 0 where
  pub inv : Inv t (move L running_list sleep_list p)
  pub changed : Changed s t p q
  pub held : t.held ≡ s.held

-- The running process, charged for its run, goes to the end of the sleep list, on the channel.
pub sleep_begin-Asleep :
    (s : Kern) (L : Members) (chan : Chan)
    → Inv s L
    → has s.current (L running_list) ≡ true
    → Yields
        (λ _ t.
          Asleep s t L s.current
            (charge s.ticks (record (s.procs s.current) { chan = chan; state = sleeping })))
        (sleep_begin chan s)
unfolding sleep_begin home_of
sleep_begin-Asleep s L chan v i =
    let p = s.current in
    let q : Proc = record (s.procs p) { chan = chan; state = sleeping } in
    let keeps = charge_keeps s.ticks q in
    let small = charge_bounds s.ticks q (v.prios p) in
    change_then s L p running_list sleep_list
      (λ (q : Proc). charge s.ticks (record q { chan = chan; state = sleeping })) _ _ sleeping _ v
      refl refl i keeps.0 (rw keeps.1 refl) small.4 keeps.1
      λ t v' d. yields (record { inv = v'; changed = d; held = held-SameBut _ t d })

-- The scheduler takes a ready process, makes it the current one, and notes when its run starts.
pub dispatch_begin-Inv :
    (s : Kern) (L : Members) (i : ℕ) (p : Ptr)
    → Inv s L
    → i ≤ maxprio
    → has p (L (ready i)) ≡ true
    → Yields
        (λ _ t.
          Inv t (move L (ready i) running_list p)
          × ((t.procs p).state ≡ running)
          × ((t.procs p).cpu_ticks_in ≡ s.ticks)
          × (t.current ≡ p)
          × (t.held ≡ s.held))
        (dispatch_begin i p s)
unfolding dispatch_begin home_of
dispatch_begin-Inv s L i p v small on =
    let s1 : Kern = record s { current = p; calls = switchuvm p ∷ s.calls } in
    let np = on-ne_null s L (ready i) p v on in
    change_then s1 L p (ready i) running_list (λ q. record q { state = running }) _ _ running _
      (Inv-same s s1 L v refl refl) (is_list-ready i small) refl on refl refl (v.prios p) refl
      λ t v' d.
        let now : t.ticks ≡ s.ticks = ap (λ (z : Kern). z.ticks) d.rest in
        rw (assign-ok t p _ np) (
          yields (
            Inv-Entry t _ _ p _ v' (record { procs = refl; ends = refl }) refl refl (v'.prios p),
            rw (==_refl p) (ap (λ (z : Proc). z.state) (Changed-self s1 t p _ d)),
            rw (==_refl p) now,
            ap (λ (z : Kern). z.current) d.rest,
            held-SameBut _ t d,
          ))

-- With the lock held and the process's state changed, sched switches without a panic, and restores
-- the saved interrupt flag afterwards.
pub sched-switches :
    (s : Kern) (elsewhere : Kern → Kern)
    → IsHeld s.held
    → s.current ≢ null
    → state_eq (s.procs s.current).state running ≡ false
    → Yields
        (λ _ t.
          (t.procs ≡ (elsewhere (record s { calls = to_scheduler ∷ s.calls })).procs)
          × (t.held.cpu.intena ≡ s.held.cpu.intena))
        (sched elsewhere s)
unfolding sched call deref
sched-switches s elsewhere held ne parked =
    rw (held.is_held, held.one_cli, ==_ne _ null ne, parked, held.cli) (yields (refl, refl))
