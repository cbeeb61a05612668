-- ===== src/Pipe/Tests.antt =====
-- The theorems about pipe.c on a pipe whose counters are about to wrap around.
use cs.Prelude.{ℕ, ◌≡◌, refl, inl, true, false, arith}
use cs.Prelude.Int.{pos}
use cs.Prelude.Run.{Yields}
use cs.Proc.Table.Lock.{taken, given_back}
use cs.Pipe.{Pipe, pipewrite, piperead}
use cs.Pipe.Queue.{Holds, joined}
use cs.Pipe.Write.{pipewrite-Holds}
use cs.Pipe.Read.{filled_in, piperead-Holds}

-- Two bytes, 7 and 7, at the end of the counters' range.
abbrev two : Pipe
two = record {
  held = record { cpu = record { interrupts = true; ncli = 0; intena = true }; holding = false };
  data_ = λ j. 7;
  nread = 4294967294;
  nwrite = 0;
  readopen = true;
  writeopen = true;
  killed = false;
  woken_readers = 0;
  woken_writers = 0;
  sleeps = 0;
  freed = false;
}

two-Holds : Holds two 2 (λ j. 7)
two-Holds = record { few = omega arith; start = omega arith; stop = refl; byte = λ j lt. refl }

pipewrite-Holds_example :
    Yields
      (λ r t.
        (r ≡ pos 3)
        × Holds t 5 (joined (λ j. 7) 2 (λ j. j) 0)
        × (t.held ≡ given_back (taken two.held))
        × (t.woken_readers ≡ 1))
      (pipewrite (λ i s. s) 1 (λ j. j) 3 two)
pipewrite-Holds_example =
    pipewrite-Holds (λ i s. s) 0 (λ j. j) 3 two 2 (λ j. 7) two-Holds
      (record { not_held = refl; no_cli = refl }) (omega arith) (inl (omega arith))

piperead-Holds_example :
    Yields
      (λ r t.
        (r.0 ≡ pos 2)
        × ((j : ℕ) → r.1 j ≡ filled_in (λ j. 7) 2 0 (λ j. j) j)
        × Holds t 0 (λ j. 7)
        × (t.held ≡ given_back (taken two.held))
        × (t.woken_writers ≡ 1))
      (piperead (λ i s. s) 1 (λ j. j) 4 two)
piperead-Holds_example =
    piperead-Holds (λ i s. s) 0 4 (λ j. j) two 2 (λ j. 7) two-Holds
      (record { not_held = refl; no_cli = refl }) (omega arith) (inl (omega arith))
