-- ===== src/Pipe/Queue.antt =====
-- A pipe as a queue of bytes.
use cs.Prelude.{
  ℕ, suc, ◌+◌, ◌-◌, ◌%◌, ◌^◌, ◌≤◌, ◌<◌, ◌≡◌, refl, ◌∙◌, ap, inl, inr, true, false, arith, ◌==◌, ltb,
  Bool-cases, if◌then◌else◌,
}
use cs.Prelude.Run.{ok}
use cs.Spinlock
use cs.Proc.Table.{add32}
use cs.Proc.Table.Lock.{IsFree, IsHeld, taken, given_back}
use cs.Pipe.{Pipe, pipesize, lock_pipe, unlock_pipe}

pub lock_pipe-ok :
    (s : Pipe) → IsFree s.held → lock_pipe s ≡ ok tt (record s { held = taken s.held })
unfolding lock_pipe Spinlock.acquire
lock_pipe-ok s f = rw (f.not_held, f.no_cli) refl

pub unlock_pipe-ok :
    (s : Pipe) → IsHeld s.held → unlock_pipe s ≡ ok tt (record s { held = given_back s.held })
unfolding unlock_pipe Spinlock.release
unlock_pipe-ok s f = rw (f.is_held, f.cli, f.one_cli) refl

-- The pipe holds `n` bytes that are not read yet, byte j of them is `q j`.
pub record Holds (s : Pipe) (n : ℕ) (q : ℕ → ℕ) : Type 0 where
  pub few : n ≤ pipesize
  pub start : s.nread < 2 ^ 32
  pub stop : s.nwrite ≡ (s.nread + n) % 2 ^ 32
  pub byte : (j : ℕ) → j < n → s.data_ ((s.nread + j) % pipesize) ≡ q j

pub Holds-ext :
    (s : Pipe) (n : ℕ) (q r : ℕ → ℕ) → Holds s n q → ((j : ℕ) → j < n → q j ≡ r j) → Holds s n r
Holds-ext s n q r h e = record {
  few = h.few;
  start = h.start;
  stop = h.stop;
  byte = λ j lt. h.byte j lt ∙ e j lt;
}

-- The queue `q` of `n` bytes with the bytes of `addr` from index `i` on behind it.
abbrev pub joined : (ℕ → ℕ) → ℕ → (ℕ → ℕ) → ℕ → ℕ → ℕ
joined q n addr i j = if ltb j n then q j else addr (i + (j - n))

-- One byte in.
abbrev pub with_byte : Pipe → ℕ → Pipe
with_byte s v = record s {
  data_ = λ j. if j == s.nwrite % pipesize then v else s.data_ j;
  nwrite = add32 s.nwrite 1;
}

pub Holds-put :
    (s : Pipe) (n : ℕ) (q : ℕ → ℕ) (v : ℕ)
    → Holds s n q
    → n < pipesize
    → Holds (with_byte s v) (n + 1) (λ j. if j == n then v else q j)
Holds-put s n q v h lt = record {
  few = omega arith;
  start = h.start;
  stop = rw h.stop (omega arith);
  byte = λ j le. elim (Bool-cases (j == n)) [
    | inl e ↦
        let here : ((s.nread + j) % pipesize == s.nwrite % pipesize) ≡ true =
          rw h.stop (ground arith) in
        rw (here, e) refl
    | inr o ↦
        let off : ((s.nread + j) % pipesize == s.nwrite % pipesize) ≡ false =
          rw h.stop (ground arith) in
        rw (off, o) (h.byte j (ground arith))
  ];
}

-- One byte out.
pub Holds-take :
    (s : Pipe) (n : ℕ) (q : ℕ → ℕ)
    → Holds s (suc n) q
    → Holds (record s { nread = add32 s.nread 1 }) n (λ j. q (1 + j))
Holds-take s n q h = record {
  few = ground (arith, h.few);
  start = omega arith;
  stop = h.stop ∙ omega arith;
  byte = λ j lt.
      let e : (add32 s.nread 1 + j) % pipesize ≡ (s.nread + (1 + j)) % pipesize = omega arith in
      ap s.data_ e ∙ h.byte (1 + j) (omega arith);
}
