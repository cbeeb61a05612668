-- ===== src/Proc/Wakeup/First.antt =====
-- What wakeup1 wakes.
use cs.Prelude.{
  ℕ, zero, suc, ◌+◌, ◌<◌, ◌≡◌, refl, subst, inl, inr, Bool, true, List, [], ◌∷◌, ◌++◌, arith, ◌==◌,
  ==_ne, ==_refl, if◌then◌else◌, Bool-cases, length,
}
use cs.Prelude.Finite.{has}
use cs.Prelude.Run.{ok, Yields, yields, Yields-bind}
use cs.Proc.Table.{
  Ptr, null, nproc, runnable, Chan, chan_eq, Proc, ready, sleep_list, Kern, same_list_iff,
  same_list,
}
use cs.Proc.StateList.Queue.{Chain}
use cs.Proc.Lists.{home_of}
use cs.Proc.Lists.Members.{Members, Lists-length}
use cs.Proc.Lists.Moves.{Inv, move}
use cs.Proc.Lists.Updates.{deref-ok}
use cs.Proc.Lists.Change.{Changed, change_then, on-ne_null, held-SameBut}
use cs.Proc.Sched.Budget.{is_list-ready}
use cs.Proc.Scan.First.{first}
use cs.Proc.Wakeup.{wake, wake_loop, wakeup1}

-- `t` is `s` with sleeping process `p` moved to the end of the ready list of its priority.
pub record Woken (s : Kern) (L : Members) (p : Ptr) (t : Kern) : Type 0 where
  pub inv : Inv t (move L sleep_list (ready (s.procs p).priority) p)
  pub changed : Changed s t p (record (s.procs p) { state = runnable })
  pub held : t.held ≡ s.held

pub wake-Woken :
    (s : Kern) (L : Members) (p : Ptr)
    → Inv s L
    → has p (L sleep_list) ≡ true
    → Yields (λ _ t. Woken s L p t) (wake p s)
unfolding wake home_of
wake-Woken s L p v i =
    let np = on-ne_null s L sleep_list p v i in
    rw (deref-ok s p np) (
      change_then s L p sleep_list (ready (s.procs p).priority) (λ q. record q { state = runnable })
        _ _ runnable _ v refl (is_list-ready _ (v.prios p)) i refl refl (v.prios p) refl
        λ t v' d. yields (record { inv = v'; changed = d; held = held-SameBut _ t d }))

next-snoc :
    (f : Ptr → Proc) (h p : Ptr) (l : List Ptr) → Chain f h (l ++ p ∷ []) → (f p).next ≡ null
next-snoc f h p [] c = c.2
next-snoc f h p (x ∷ l) c = next-snoc f (f x).next p l c.2

-- The process that was woken is the last of its list: the loop's `p->next` is null.
next-Woken :
    (s t : Kern) (L : Members) (p : Ptr) → Inv s L → Woken s L p t → (t.procs p).next ≡ null
next-Woken s t L p v w =
    let n = ready (s.procs p).priority in
    let same : same_list n n ≡ true = (same_list_iff n n).1 refl in
    let chain = (w.inv.lists.queue n (is_list-ready _ (v.prios p))).chain in
    next-snoc t.procs _ p (L n) (subst (λ l. Chain t.procs (t.ends n).head l) (rw same refl) chain)

abbrev pub on_chan : Chan → Proc → Bool
on_chan chan q = chan_eq q.chan chan

abbrev pub FirstWoken : Kern → Members → Ptr → Kern → Type 0
FirstWoken s L x t = if x == null then t ≡ s else Woken s L x t

wake_loop-null : (k : ℕ) (chan : Chan) (s : Kern) → 0 < k → wake_loop k chan null s ≡ ok tt s
unfolding wake_loop
wake_loop-null zero chan s h = absurd (omega arith)
wake_loop-null (suc k) chan s h = refl

wake_loop-first :
    (k : ℕ) (chan : Chan) (p : Ptr) (s : Kern) (L : Members) (xs : List Ptr)
    → Inv s L
    → Chain s.procs p xs
    → ((x : Ptr) → has x xs ≡ true → has x (L sleep_list) ≡ true)
    → length xs < k
    → Yields (λ _ t. FirstWoken s L (first s.procs (on_chan chan) xs) t) (wake_loop k chan p s)
unfolding wake_loop
wake_loop-first zero chan p s L xs v c sub fuel = absurd (omega arith)
wake_loop-first (suc k) chan p s L [] v c sub fuel = rw c (yields refl)
wake_loop-first (suc k) chan p s L (x ∷ xs) v c sub fuel =
    let nx = c.1 in
    elim (Bool-cases (chan_eq (s.procs x).chan chan)) [
      | inl hit ↦
          rw (c.0, ==_ne x null nx, deref-ok s x nx, hit)
            (Yields-bind (wake-Woken s L x v (sub x (rw (==_refl x) refl))) λ _ t w.
              rw
                (
                  deref-ok t x nx,
                  next-Woken s t L x v w,
                  wake_loop-null k chan t (omega arith),
                  ==_ne x null nx,
                )
                (yields w))
      | inr miss ↦
          rw (c.0, ==_ne x null nx, deref-ok s x nx, miss, deref-ok s x nx)
            (wake_loop-first k chan _ s L xs v c.2 (λ y i. sub y (ground arith)) (omega arith))
    ]

-- wakeup1 wakes the first process of the sleep list that sleeps on the channel, and no other; with
-- none it changes nothing.
pub wakeup1-first :
    (chan : Chan) (s : Kern) (L : Members)
    → Inv s L
    → Yields
        (λ _ t. FirstWoken s L (first s.procs (on_chan chan) (L sleep_list)) t)
        (wakeup1 chan s)
unfolding wakeup1
wakeup1-first chan s L v =
    wake_loop-first (nproc + 1) chan _ s L (L sleep_list) v (v.lists.queue sleep_list refl).chain
      (λ x i. i) (omega (arith, Lists-length s L v.lists sleep_list))
