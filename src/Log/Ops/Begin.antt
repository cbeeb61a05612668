-- ===== src/Log/Ops/Begin.antt =====
-- begin_op waits until there is room in the log, and reserves it.
use cs.Prelude.{
  ℕ, zero, suc, ◌+◌, ◌*◌, ◌≤◌, ◌<◌, ◌≡◌, refl, ◌⊎◌, inl, inr, true, false, arith, Bool-cases,
}
use cs.Prelude.Run.{Yields, yields, Yields-mono}
use cs.Spinlock
use cs.Proc.Table.Lock.{IsFree, IsHeld, taken, given_back, taken-IsHeld}
use cs.Prelude.Run.{ok}
use cs.Log.{LogState, logsize, maxopblocks}
use cs.Log.Ops.{lock_log, unlock_log, sleep_log, can_begin, begin_loop, begin_op}

pub lock_log-ok :
    (s : LogState) → IsFree s.held → lock_log s ≡ ok tt (record s { held = taken s.held })
unfolding lock_log Spinlock.acquire
lock_log-ok s f = rw (f.not_held, f.no_cli) refl

pub unlock_log-ok :
    (s : LogState) → IsHeld s.held → unlock_log s ≡ ok tt (record s { held = given_back s.held })
unfolding unlock_log Spinlock.release
unlock_log-ok s f = rw (f.is_held, f.cli, f.one_cli) refl

-- The state after the sleeps of `j` rounds from round `i` on.
abbrev pub slept : (ℕ → LogState → LogState) → (j i : ℕ) → LogState → LogState
slept elsewhere zero i s = s
slept elsewhere (suc j) i s = slept elsewhere j (i + 1) (sleep_log (elsewhere i) s)

-- Every call that is in progress has room for its blocks.
abbrev pub Reserved : LogState → Type 0
Reserved s = s.n + s.outstanding * maxopblocks ≤ logsize

-- One more call can begin: no commit is in progress, and its blocks find room beside those of the others.
abbrev pub HasRoom : LogState → Type 0
HasRoom s = (s.committing ≡ false) × (s.n + (s.outstanding + 1) * maxopblocks ≤ logsize)

abbrev pub NoRoom : LogState → Type 0
NoRoom s = (s.committing ≡ true) ⊎ (logsize < s.n + (s.outstanding + 1) * maxopblocks)

HasRoom-can_begin : (s : LogState) → HasRoom s → can_begin s ≡ true
HasRoom-can_begin s (idle, le) = ground (arith, idle, le)

NoRoom-can_begin : (s : LogState) → can_begin s ≡ false → NoRoom s
NoRoom-can_begin s full = elim (Bool-cases s.committing) [
  | inl busy ↦ inl busy
  | inr idle ↦ inr (ground (arith, full, idle))
]

-- The loop has gone on from round `i` after `n` sleeps, at most `j`: before, there was no room, and now every
-- call has room and no commit is in progress. The call is counted, the lock is given back, and all else is
-- as the last sleep left it.
abbrev pub Begun : (ℕ → LogState → LogState) → (j i : ℕ) → (s t : LogState) → Type 0
Begun elsewhere j i s t =
    (n : ℕ) × (n ≤ j)
    × ((m : ℕ) → m < n → NoRoom (slept elsewhere m i s))
    × (t.outstanding ≡ (slept elsewhere n i s).outstanding + 1)
    × (t.committing ≡ false)
    × Reserved t
    × (t.held ≡ given_back s.held)
    × (t ≡ record (slept elsewhere n i s) { outstanding = t.outstanding; held = t.held })

Begun-later :
    (elsewhere : ℕ → LogState → LogState) (j i : ℕ) (s t : LogState)
    → can_begin s ≡ false
    → Begun elsewhere j (i + 1) (sleep_log (elsewhere i) s) t
    → Begun elsewhere (suc j) i s t
Begun-later elsewhere j i s t full (n, le, before, counted, idle, room, held, rest) =
    (suc n, omega arith, earlier, counted, idle, room, held, rest)
  where
    earlier : (m : ℕ) → m < suc n → NoRoom (slept elsewhere m i s)
    earlier zero lt = NoRoom-can_begin s full
    earlier (suc m) lt = before m (omega arith)

-- The first round that finds room.
Begun-now :
    (elsewhere : ℕ → LogState → LogState) (j k i : ℕ) (s : LogState)
    → IsHeld s.held
    → can_begin s ≡ true
    → Yields (λ _ t. Begun elsewhere j i s t) (begin_loop elsewhere (suc k) i s)
unfolding begin_loop
Begun-now elsewhere j k i s held room =
    rw (room, unlock_log-ok (record s { outstanding = s.outstanding + 1 }) held)
      (yields (
        zero,
        omega arith,
        (λ m lt. absurd (omega arith)),
        refl,
        ground arith,
        ground arith,
        refl,
        refl,
      ))

begin_loop-Begun :
    (elsewhere : ℕ → LogState → LogState) (j k i : ℕ) (s : LogState)
    → IsHeld s.held
    → j < k
    → can_begin (slept elsewhere j i s) ≡ true
    → Yields (λ _ t. Begun elsewhere j i s t) (begin_loop elsewhere k i s)
unfolding begin_loop
begin_loop-Begun elsewhere j zero i s held lt room = absurd (omega arith)
begin_loop-Begun elsewhere zero (suc k) i s held lt room = Begun-now elsewhere zero k i s held room
begin_loop-Begun elsewhere (suc j) (suc k) i s held lt room = elim (Bool-cases (can_begin s)) [
  | inl e ↦ Begun-now elsewhere (suc j) k i s held e
  | inr o ↦ rw o (
      Yields-mono
        (begin_loop-Begun elsewhere j k (i + 1) (sleep_log (elsewhere i) s) held (omega arith) room)
        λ _ t. Begun-later elsewhere j i s t o)
]

-- If after some number of sleeps no commit is in progress and the log has room for one more call,
-- then begin_op, given one more round than that, returns at the first moment where this is so: the number
-- of calls in progress is one more than there, each of them has room for MAXOPBLOCKS blocks in the log, no
-- commit is in progress, the lock is given back, and nothing else has changed since.
pub begin_op-Reserved :
    (elsewhere : ℕ → LogState → LogState) (j : ℕ) (s : LogState)
    → IsFree s.held
    → HasRoom (slept elsewhere j 0 (record s { held = taken s.held }))
    → Yields
        (λ _ t. Begun elsewhere j 0 (record s { held = taken s.held }) t)
        (begin_op elsewhere (suc j) s)
unfolding begin_op
begin_op-Reserved elsewhere j s free room = rw (lock_log-ok s free) (
    begin_loop-Begun elsewhere j (suc j) 0 (record s { held = taken s.held }) (taken-IsHeld s.held)
      (omega arith)
      (HasRoom-can_begin (slept elsewhere j 0 (record s { held = taken s.held })) room))
