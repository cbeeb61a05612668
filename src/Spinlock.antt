-- ===== src/Spinlock.antt =====
-- spinlock.c as one CPU sees it: the nesting of pushcli and popcli, acquire and release.
mod Tests
use Prim.Native.String.{String}
use cs.Prelude.{
  ℕ, zero, suc, ◌+◌, ◌-◌, ◌≡◌, refl, Bool, true, false, ◌&&◌, arith, ◌==◌, if◌then◌else◌,
}
use cs.Prelude.Run.{Cmd, ok, panic, fault, out_of_fuel}

-- The interrupt flag of eflags, and the two fields of struct cpu.
pub record Cpu : Type 0 where
  pub interrupts : Bool
  pub ncli : ℕ
  pub intena : Bool

unfoldable pub pushcli : Cpu → Cpu
pushcli c = record {
  interrupts = false;
  ncli = c.ncli + 1;
  intena = if c.ncli == 0 then c.interrupts else c.intena;
}

-- `--ncli < 0` of the signed counter is a counter at 0.
unfoldable pub popcli : Cmd Cpu (Unit {0})
popcli c =
    if c.interrupts
    then panic "popcli - interruptible"
    else if c.ncli == 0
    then panic "popcli"
    else ok tt (record c { ncli = c.ncli - 1; interrupts = (c.ncli - 1 == 0) && c.intena })

-- A CPU and whether it holds the lock. Another CPU's holding it only delays `acquire`.
pub record Held : Type 0 where
  pub cpu : Cpu
  pub holding : Bool

unfoldable pub acquire : Cmd Held (Unit {0})
unfolding pushcli
acquire h =
    if h.holding then panic "acquire" else ok tt (record { cpu = pushcli h.cpu; holding = true })

unfoldable pub after_pop : Cmd Held (Unit {0})
unfolding popcli
after_pop h = elim (popcli h.cpu) [
  | ok _ c ↦ ok tt (record { cpu = c; holding = false })
  | panic why ↦ panic why
  | fault ↦ fault
  | out_of_fuel ↦ out_of_fuel
]

unfoldable pub release : Cmd Held (Unit {0})
unfolding after_pop
release h = if h.holding then after_pop h else panic "release"

-- The CPU's bookkeeping is consistent: under pushcli interrupts are off.
abbrev pub IsConsistent : Cpu → Type 0
IsConsistent c = ((c.ncli == 0) ≡ false) → c.interrupts ≡ false

-- A critical section on a lock that the CPU does not hold gives back the CPU as it was: the depth and the
-- interrupt flag, and the saved flag where one is saved, that is at a depth other than 0; at depth 0 the
-- saved flag is the interrupt flag. Inside it interrupts are off and the depth is one more.
pub release-acquire :
    (h : Held)
    → IsConsistent h.cpu
    → h.holding ≡ false
    → (mid : Held) × (end : Held) × (acquire h ≡ ok tt mid)
      × (release mid ≡ ok tt end)
      × (mid.cpu.interrupts ≡ false)
      × (mid.holding ≡ true)
      × (mid.cpu.ncli ≡ h.cpu.ncli + 1)
      × (mid.cpu.intena ≡ (if h.cpu.ncli == 0 then h.cpu.interrupts else h.cpu.intena))
      × (end.cpu.interrupts ≡ h.cpu.interrupts)
      × (end.cpu.ncli ≡ h.cpu.ncli)
      × (end.cpu.intena ≡ (if h.cpu.ncli == 0 then h.cpu.interrupts else h.cpu.intena))
      × (end.holding ≡ false)
unfolding acquire release
release-acquire h c free = (
  record { cpu = pushcli h.cpu; holding = true },
  record {
    cpu = record {
      interrupts = h.cpu.interrupts;
      ncli = h.cpu.ncli;
      intena = if h.cpu.ncli == 0 then h.cpu.interrupts else h.cpu.intena;
    };
    holding = false;
  },
  rw free refl,
  ground arith,
  refl,
  refl,
  refl,
  refl,
  refl,
  refl,
  refl,
  refl,
)

-- A command of a lock that is a part of a larger state.
abbrev pub within :
    {S : Type 0} → (S → Held) → (S → Held → S) → Cmd Held (Unit {0}) → Cmd S (Unit {0})
within get set m s = elim (m (get s)) [
  | ok _ h ↦ ok tt (set s h)
  | panic why ↦ panic why
  | fault ↦ fault
  | out_of_fuel ↦ out_of_fuel
]
