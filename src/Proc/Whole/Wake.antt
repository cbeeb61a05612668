-- ===== src/Proc/Whole/Wake.antt =====
-- Which processes wakeup1 wakes, and kill marks, in the build without state lists.
use cs.Prelude.{
  ℕ, zero, suc, ◌+◌, ◌≤◌, ◌<◌, ◌≡◌, refl, ◌∙◌, ◌≢◌, ◌⊎◌, inl, inr, true, false, ◌&&◌, arith, ◌==◌,
  ==_refl, leb, ltb, Bool-cases, if◌then◌else◌,
}
use cs.Prelude.Int.{ℤ, pos, negsuc}
use cs.Prelude.Run.{Yields, yields, Yields-mono}
use cs.Proc.Table.{Ptr, null, nproc, runnable, Chan, Kern, put}
use cs.Proc.Table.Lock.{IsFree, IsHeld, taken, given_back, acquire-ok, release-ok, taken-IsHeld}
use cs.Proc.Lists.Updates.{assign-ok, deref-ok}
use cs.Proc.Whole.{sleeps_on, wake_from, wakeup1_whole, mark_killed, kill_from, kill_whole}

-- The processes of a range that sleep on the channel are runnable, and nothing else has changed.
pub record AllWoken (s t : Kern) (chan : Chan) (k p : ℕ) : Type 0 where
  pub entry :
      (q : Ptr)
      → t.procs q ≡ (
          if leb p q && ltb q (p + k) && sleeps_on chan (s.procs q)
          then record (s.procs q) { state = runnable }
          else s.procs q)
  pub rest : t ≡ record s { procs = t.procs }

wake_from-AllWoken :
    (k p : ℕ) (chan : Chan) (s : Kern)
    → 0 < p
    → Yields (λ _ t. AllWoken s t chan k p) (wake_from k chan p s)
unfolding wake_from
wake_from-AllWoken zero p chan s lo = yields (record { entry = λ q. ground arith; rest = refl })
wake_from-AllWoken (suc k) p chan s lo =
    let np : p ≢ null = omega arith in
    rw (deref-ok s p np) (elim (Bool-cases (sleeps_on chan (s.procs p))) [
      | inl e ↦
          rw (e, assign-ok s p (λ r. record r { state = runnable }) np)
            (Yields-mono (wake_from-AllWoken k (p + 1) chan _ (omega arith)) λ _ t a. record {
              entry = λ q. elim (Bool-cases (q == p)) [
                | inl h ↦
                    let same : q ≡ p = ground arith in
                    let out : leb (p + 1) p ≡ false = ground arith in
                    let low : leb p p ≡ true = ground arith in
                    let hi : ltb p (p + suc k) ≡ true = ground arith in
                    rw same (rw (low, hi, e) (a.entry p ∙ rw (out, ==_refl p) refl))
                | inr h ↦ let b = a.entry q in rw h at b ∙ ground arith
              ];
              rest = a.rest;
            })
      | inr o ↦ rw o (
          Yields-mono (wake_from-AllWoken k (p + 1) chan s (omega arith))
            λ _ t a. record { entry = λ q. ground (arith, a.entry q); rest = a.rest })
    ])

-- In the build without state lists wakeup1 makes every process of the table runnable that sleeps on
-- the channel, and changes nothing else.
pub wakeup1_whole-AllWoken :
    (chan : Chan) (s : Kern) → Yields (λ _ t. AllWoken s t chan nproc 1) (wakeup1_whole chan s)
unfolding wakeup1_whole
wakeup1_whole-AllWoken chan s = wake_from-AllWoken nproc 1 chan s (omega arith)

-- The first process with the pid, from `p` on and among `k`, is marked; or there is none.
abbrev pub FirstKilled : Kern → (pid k p : ℕ) → ℤ → Kern → Type 0
FirstKilled s pid k p r t =
    ((r ≡ negsuc 0)
      × ((q : Ptr) → p ≤ q → q < p + k → (s.procs q).pid ≢ pid)
      × (t ≡ record s { held = given_back s.held }))
    ⊎ ((r ≡ pos 0)
        × (x : Ptr) × (p ≤ x)
        × (x < p + k)
        × ((s.procs x).pid ≡ pid)
        × ((q : Ptr) → p ≤ q → q < x → (s.procs q).pid ≢ pid)
        × (t ≡ record s {
          procs = put s.procs x (mark_killed (s.procs x));
          held = given_back s.held;
        }))

FirstKilled-step :
    (s : Kern) (pid k p : ℕ) (r : ℤ) (t : Kern)
    → (s.procs p).pid ≢ pid
    → FirstKilled s pid k (p + 1) r t
    → FirstKilled s pid (suc k) p r t
FirstKilled-step s pid k p r t ne (inl (e, none, same)) = inl (
  e,
  λ q a b. elim (Bool-cases (q == p)) [
    | inl h ↦ let k' : q ≡ p = ground arith in rw k' ne
    | inr h ↦ none q (ground arith) (omega arith)
  ],
  same,
)
FirstKilled-step s pid k p r t ne (inr (e, x, lo, hi, hit, before, same)) = inr (
  e,
  x,
  omega arith,
  omega arith,
  hit,
  λ q a b. elim (Bool-cases (q == p)) [
    | inl h ↦ let k' : q ≡ p = ground arith in rw k' ne
    | inr h ↦ before q (ground arith) b
  ],
  same,
)

kill_from-FirstKilled :
    (k pid p : ℕ) (s : Kern)
    → IsHeld s.held
    → 0 < p
    → Yields (FirstKilled s pid k p) (kill_from k pid p s)
unfolding kill_from
kill_from-FirstKilled zero pid p s held lo =
    rw (release-ok s held) (yields (inl (refl, λ q a b. absurd (omega arith), refl)))
kill_from-FirstKilled (suc k) pid p s held lo =
    let np : p ≢ null = omega arith in
    rw (deref-ok s p np) (elim (Bool-cases ((s.procs p).pid == pid)) [
      | inl e ↦
          let s1 : Kern = record s { procs = put s.procs p (mark_killed (s.procs p)) } in
          rw (e, assign-ok s p mark_killed np, release-ok s1 held)
            (yields (
              inr (
                refl,
                p,
                omega arith,
                omega arith,
                ground arith,
                λ q a b. absurd (omega arith),
                refl,
              )))
      | inr o ↦ rw o (
          Yields-mono (kill_from-FirstKilled k pid (p + 1) s held (omega arith))
            λ r t a. FirstKilled-step s pid k p r t (ground arith) a)
    ])

-- In the build without state lists kill marks the first process of the table with the pid as killed,
-- makes it runnable if it sleeps, and returns 0; without one it returns -1 and changes no process.
-- It gives the lock back.
pub kill_whole-FirstKilled :
    (s : Kern) (pid : ℕ)
    → IsFree s.held
    → Yields (FirstKilled (record s { held = taken s.held }) pid nproc 1) (kill_whole pid s)
unfolding kill_whole
kill_whole-FirstKilled s pid free = rw (acquire-ok s free) (
    kill_from-FirstKilled nproc pid 1 (record s { held = taken s.held }) (taken-IsHeld s.held)
      (omega arith))
