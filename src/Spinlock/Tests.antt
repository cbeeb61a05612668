-- ===== src/Spinlock/Tests.antt =====
-- The theorem about spinlocks at a CPU with interrupts on.
use cs.Prelude.{◌≡◌, refl, true, false}
use cs.Prelude.Run.{ok}
use cs.Spinlock.{Held, acquire, release, release-acquire}

abbrev idle : Held
idle = record { cpu = record { interrupts = true; ncli = 0; intena = false }; holding = false }

release-acquire_example :
    (mid : Held) × (end : Held) × (acquire idle ≡ ok tt mid)
    × (release mid ≡ ok tt end)
    × (mid.cpu.interrupts ≡ false)
    × (mid.holding ≡ true)
    × (mid.cpu.ncli ≡ 1)
    × (mid.cpu.intena ≡ true)
    × (end.cpu.interrupts ≡ true)
    × (end.cpu.ncli ≡ 0)
    × (end.cpu.intena ≡ true)
    × (end.holding ≡ false)
release-acquire_example = release-acquire idle (λ e. cc) refl
