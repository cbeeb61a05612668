-- ===== src/Proc/Sched/Budget.antt =====
-- The budget after a run is a positive int, and the priority stays within the ready lists.
use cs.Prelude.{
  ◌-◌, ◌%◌, ◌*◌, ◌⊎◌, inl, inr, refl, Bool-cases, ◌==◌, if◌then◌else◌, ℕ, ◌+◌, ◌^◌, ◌≤◌, ◌<◌, ◌≡◌,
  true, arith,
}
use cs.Proc.Table.{not_positive, initial_budget, maxprio, Proc, ready, is_list}
use cs.Proc.Sched.{charge}

pub is_list-ready : (i : ℕ) → i ≤ maxprio → is_list (ready i) ≡ true
is_list-ready i h = ground arith

-- A process that is charged for its run has a positive budget (as an int), and a priority that is
-- its old one or the next, and at most the last.
pub charge_bounds :
    (ticks : ℕ) (q : Proc)
    → q.priority ≤ maxprio
    → (0 < (charge ticks q).budget)
      × ((charge ticks q).budget < 2 ^ 31)
      × (q.priority ≤ (charge ticks q).priority)
      × ((charge ticks q).priority ≤ q.priority + 1)
      × ((charge ticks q).priority ≤ maxprio)
unfolding charge
charge_bounds ticks q h = ground arith

pub charge_keeps :
    (ticks : ℕ) (q : Proc)
    → ((charge ticks q).next ≡ q.next)
      × ((charge ticks q).state ≡ q.state)
      × ((charge ticks q).chan ≡ q.chan)
unfolding charge
charge_keeps ticks q = ground arith

-- The ticks since the process was put on the CPU, and what is left of its budget, as bit patterns.
abbrev pub run_ticks : ℕ → Proc → ℕ
run_ticks ticks q = (ticks + 2 ^ 32 - q.cpu_ticks_in) % 2 ^ 32

abbrev pub left_over : ℕ → Proc → ℕ
left_over ticks q = (q.budget + 2 ^ 32 - run_ticks ticks q) % 2 ^ 32

-- `q'` is `q` after a run: what is left of the budget is positive as an int, and is the new budget, at the
-- same priority; or it is not, and the process has gone down one priority, if there is a lower one, and
-- has the full budget of its priority.
abbrev pub Charged : ℕ → (q q' : Proc) → Type 0
Charged ticks q q' =
    (q' ≡ record q { priority = q'.priority; budget = q'.budget })
    × (((0 < left_over ticks q)
          × (left_over ticks q < 2 ^ 31)
          × (q'.priority ≡ q.priority)
          × (q'.budget ≡ left_over ticks q))
        ⊎ (((left_over ticks q ≡ 0) ⊎ (2 ^ 31 ≤ left_over ticks q))
            × (q'.priority ≡ (if q.priority == maxprio then maxprio else q.priority + 1))
            × (q'.budget ≡ initial_budget * (q'.priority + 1))))

pub charge-Charged :
    (ticks : ℕ) (q : Proc) → q.priority ≤ maxprio → Charged ticks q (charge ticks q)
unfolding charge
charge-Charged ticks q small = elim (Bool-cases (not_positive (left_over ticks q))) [
  | inl used ↦ rw used (refl, inr (used_up (left_over ticks q) used, ground arith, refl))
  | inr left ↦ rw left (refl, inl (ground (arith, left), ground (arith, left), refl, refl))
]
  where
    used_up : (x : ℕ) → not_positive x ≡ true → (x ≡ 0) ⊎ (2 ^ 31 ≤ x)
    used_up x used = elim (Bool-cases (x == 0)) [
      | inl z ↦ inl (ground arith)
      | inr o ↦ inr (ground (arith, used, o))
    ]
