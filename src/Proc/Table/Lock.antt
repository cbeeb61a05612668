-- ===== src/Proc/Table/Lock.antt =====
-- ptable.lock: a CPU that holds no lock takes it, and gives it back.
use cs.Prelude.{◌≡◌, refl, true, false}
use cs.Prelude.Run.{ok}
use cs.Spinlock
use cs.Spinlock.{Held, after_pop}
use cs.Proc.Table.{Kern, acquire, release}

pub record IsFree (h : Held) : Type 0 where
  pub not_held : h.holding ≡ false
  pub no_cli : h.cpu.ncli ≡ 0

pub record IsHeld (h : Held) : Type 0 where
  pub is_held : h.holding ≡ true
  pub one_cli : h.cpu.ncli ≡ 1
  pub cli : h.cpu.interrupts ≡ false

abbrev pub taken : Held → Held
taken h = record {
  cpu = record { interrupts = false; ncli = 1; intena = h.cpu.interrupts };
  holding = true;
}

abbrev pub given_back : Held → Held
given_back h = record {
  cpu = record { interrupts = h.cpu.intena; ncli = 0; intena = h.cpu.intena };
  holding = false;
}

pub acquire-ok : (s : Kern) → IsFree s.held → acquire s ≡ ok tt (record s { held = taken s.held })
unfolding acquire Spinlock.acquire
acquire-ok s f = rw (f.not_held, f.no_cli) refl

pub release-ok :
    (s : Kern) → IsHeld s.held → release s ≡ ok tt (record s { held = given_back s.held })
unfolding release Spinlock.release
release-ok s f = rw (f.is_held, f.cli, f.one_cli) refl

pub taken-IsHeld : (h : Held) → IsHeld (taken h)
taken-IsHeld h = record { is_held = refl; one_cli = refl; cli = refl }

pub given_back-IsFree : (h : Held) → IsFree (given_back h)
given_back-IsFree h = record { not_held = refl; no_cli = refl }
