-- ===== src/Log/Tests.antt =====
-- The theorems about log.c on a small disk: the log starts at block 2, block 100 is at home.
use cs.Prelude.{ℕ, ◌≡◌, refl, true, false, [], arith, ◌==◌, inl, if◌then◌else◌}
use cs.Prelude.Run.{Yields, ◌>>◌}
use cs.Proc.Table.Lock.{taken, given_back}
use cs.Bytes.{word_at}
use cs.Log.{Block, Disk, LogState, put_block, write_data, initlog, commit}
use cs.Log.Install.{All, Clean}
use cs.Log.Recover.{Durable, off, initlog-Durable}
use cs.Log.Commit.{Ready, AllOrNothing, commit-AllOrNothing}
use cs.Log.Ops.{begin_op, log_write}
use cs.Log.Ops.Begin.{Begun, begin_op-Reserved}
use cs.Log.Ops.Write.{log_write-Ready}

-- The empty disk, and a block of sevens.
abbrev blank : Disk
blank b a = 0

abbrev sevens : Block
sevens a = 7

-- One call is in progress; block 100 is logged, and its data changed in the cache.
abbrev busy : LogState
busy = record {
  held = record { cpu = record { interrupts = true; ncli = 0; intena = true }; holding = false };
  start = 2;
  size = 31;
  outstanding = 1;
  committing = false;
  n = 1;
  block = λ i. 100;
  cache = put_block blank 100 sevens;
  disk = blank;
  history = [];
  dirty = λ b. b == 100;
  wakeups = 0;
}

busy-Ready : Ready busy blank (put_block blank 100 sevens)
unfolding word_at
busy-Ready = record {
  clean = record { head_n = refl; homes = λ b h. refl };
  fits = omega arith;
  small = λ j h. omega arith;
  homes = λ j h. refl;
  cached = λ j h. refl;
  unchanged = λ b h out. let off : (b == 100) ≡ false = ground arith in rw off refl;
}

initlog-Durable_example :
    Yields
      (λ _ t. Clean 2 blank t.disk × (t.n ≡ 0) × All (Durable 2 blank) t.history)
      (initlog 2 31 (off busy blank))
initlog-Durable_example = initlog-Durable busy 2 31 blank blank (inl busy-Ready.clean)

commit-AllOrNothing_example :
    Yields
      (λ _ t.
        Clean 2 (put_block blank 100 sevens) t.disk
        × (t.n ≡ 0)
        × All (AllOrNothing 2 blank (put_block blank 100 sevens)) t.history)
      (commit busy)
commit-AllOrNothing_example =
    commit-AllOrNothing busy blank (put_block blank 100 sevens) busy-Ready tt

-- The log is full until another process commits in the second sleep.
abbrev waiting : LogState
waiting = record busy { outstanding = 3 }

abbrev elsewhere : ℕ → LogState → LogState
elsewhere i s = if i == 1 then record s { outstanding = 0; n = 0 } else s

begin_op-Reserved_example :
    Yields
      (λ _ t. Begun elsewhere 2 0 (record waiting { held = taken waiting.held }) t)
      (begin_op elsewhere 3 waiting)
begin_op-Reserved_example =
    begin_op-Reserved elsewhere 2 waiting (record { not_held = refl; no_cli = refl })
      (refl, omega arith)

log_write-Ready_example :
    Yields
      (λ _ t.
        Ready t blank (put_block (put_block blank 100 sevens) 101 sevens)
        × (t.n ≡ 2)
        × (t.dirty 101 ≡ true)
        × (t.held ≡ given_back (taken busy.held)))
      ((write_data 101 sevens >> log_write 101) busy)
log_write-Ready_example =
    log_write-Ready busy blank (put_block blank 100 sevens) 101 sevens busy-Ready
      (record { not_held = refl; no_cli = refl }) (omega arith) (omega arith) refl (omega arith)
      refl
