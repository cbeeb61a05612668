-- ===== src/Pipe/Write.antt =====
-- pipewrite puts its bytes behind those that the pipe holds.
use cs.Prelude.{
  ℕ, zero, suc, ◌+◌, ◌-◌, ◌^◌, ◌≤◌, ◌<◌, ◌≡◌, refl, ◌∙◌, ap, sym, subst, ◌⊎◌, inl, inr, Bool, true,
  false, not, ◌||◌, arith, ◌==◌, ltb, leb, Bool-cases, if◌then◌else◌,
}
use cs.Prelude.Int.{pos, negsuc}
use cs.Prelude.Run.{Yields, yields, Yields-mono, Yields-bind}
use cs.Proc.Table.{add32}
use cs.Proc.Table.Lock.{IsFree, IsHeld, taken, given_back, taken-IsHeld}
use cs.Pipe.{Pipe, pipesize, wait_room, put_byte, write_bytes, pipewrite}
use cs.Pipe.Queue.{lock_pipe-ok, unlock_pipe-ok, Holds, Holds-ext, joined, with_byte, Holds-put}

-- A full pipe is not waited for.
abbrev pub refuses : Pipe → Bool
refuses s = not s.readopen || s.killed

-- How many bytes of `n + m` the pipe takes.
abbrev pub taken_bytes : ℕ → ℕ
taken_bytes k = if leb k pipesize then k else pipesize

-- Where the loop changes the pipe.
abbrev SameEnds : Pipe → Pipe → Type 0
SameEnds s t = t ≡ record s { data_ = t.data_; nwrite = t.nwrite }

full_iff :
    (s : Pipe) (n : ℕ) (q : ℕ → ℕ)
    → Holds s n q
    → (s.nwrite == add32 s.nread pipesize) ≡ (n == pipesize)
full_iff s n q h = rw h.stop (ground (arith, h.few, h.start))

joined_step :
    (q : ℕ → ℕ) (n : ℕ) (addr : ℕ → ℕ) (i j : ℕ)
    → joined (λ l. if l == n then addr i else q l) (n + 1) addr (i + 1) j ≡ joined q n addr i j
joined_step q n addr i j = elim (Bool-cases (ltb j n)) [
  | inl lt ↦
      let lt1 : ltb j (n + 1) ≡ true = ground arith in
      let ne : (j == n) ≡ false = ground arith in rw (lt, lt1, ne) refl
  | inr ge ↦ elim (Bool-cases (j == n)) [
    | inl e ↦
        let lt1 : ltb j (n + 1) ≡ true = ground arith in
        let here : i + (j - n) ≡ i = ground arith in rw (ge, lt1, e, here) refl
    | inr o ↦
        let ge1 : ltb j (n + 1) ≡ false = ground arith in
        let here : i + 1 + (j - (n + 1)) ≡ i + (j - n) = ground arith in rw (ge, ge1, here) refl
  ]
]

module _ (elsewhere : ℕ → Pipe → Pipe) (k : ℕ) (addr : ℕ → ℕ) where
  write_bytes-Holds :
      (m i : ℕ) (s : Pipe) (n : ℕ) (q : ℕ → ℕ)
      → Holds s n q
      → (n + m ≤ pipesize) ⊎ (refuses s ≡ true)
      → Yields
          (λ done t.
            (done ≡ leb (n + m) pipesize)
            × Holds t (taken_bytes (n + m)) (joined q n addr i)
            × SameEnds s t)
          (write_bytes elsewhere (suc k) addr m i s)
  unfolding write_bytes wait_room put_byte
  write_bytes-Holds zero i s n q h room =
      let same : n + 0 ≡ n = omega arith in
      let fits : leb n pipesize ≡ true = ground (arith, h.few) in
      rw (same, fits)
        (yields (refl, Holds-ext s n q (joined q n addr i) h (λ j lt. ground arith), refl))
  write_bytes-Holds (suc m) i s n q h room = elim (Bool-cases (n == pipesize)) [
    | inl e ↦
        let full = full_iff s n q h ∙ e in
        let all : n ≡ pipesize = ground arith in
        let closed : refuses s ≡ true = elim room [ inl le ↦ absurd (omega arith) | inr c ↦ c ] in
        let over : leb (n + suc m) pipesize ≡ false = ground arith in
        rw (full, closed, over)
          (yields (
            refl,
            subst (λ a. Holds s a (joined q n addr i)) all
                (Holds-ext s n q (joined q n addr i) h (λ j lt. ground arith)),
            refl,
          ))
    | inr o ↦
        let lt : n < pipesize = ground (arith, h.few) in
        let has_room = full_iff s n q h ∙ o in
        let more : n + suc m ≡ n + 1 + m = omega arith in
        let q' : ℕ → ℕ = λ j. if j == n then addr i else q j in
        let s1 = with_byte s (addr i) in
        rw (has_room, more)
          (Yields-mono
            (write_bytes-Holds m (i + 1) s1 (n + 1) q' (Holds-put s n q (addr i) h lt)
              (elim room [ inl le ↦ inl (omega arith) | inr c ↦ inr c ]))
            λ done t (d, h', e). (
              d,
              Holds-ext t _ (joined q' (n + 1) addr (i + 1)) (joined q n addr i) h'
                  (λ j lt'. joined_step q n addr i j),
              e,
            ))
  ]

  -- pipewrite of `n` bytes, an int that is not negative, to a pipe that holds `c` bytes and has either
  -- room for all of them or a reader's end that is closed (or a process that is killed): it puts the
  -- bytes that fit behind those that the pipe holds, and returns n if these are all, else -1. The lock
  -- is given back, and the readers are woken after a full write.
  pub pipewrite-Holds :
      (n : ℕ) (s : Pipe) (c : ℕ) (q : ℕ → ℕ)
      → Holds s c q
      → IsFree s.held
      → n < 2 ^ 31
      → (c + n ≤ pipesize) ⊎ (refuses s ≡ true)
      → Yields
          (λ r t.
            (r ≡ (if leb (c + n) pipesize then pos n else negsuc 0))
            × Holds t (taken_bytes (c + n)) (joined q c addr 0)
            × (t.held ≡ given_back (taken s.held))
            × (t.woken_readers
                ≡ (if leb (c + n) pipesize then s.woken_readers + 1 else s.woken_readers)))
          (pipewrite elsewhere (suc k) addr n s)
  unfolding pipewrite
  pipewrite-Holds n s c q h free small room =
      let few : ltb n (2 ^ 31) ≡ true = ground arith in
      let s1 : Pipe = record s { held = taken s.held } in
      let h1 : Holds s1 c q = record {
        few = h.few;
        start = h.start;
        stop = h.stop;
        byte = h.byte;
      } in
      rw (lock_pipe-ok s free, few)
        (Yields-bind (write_bytes-Holds n 0 s1 c q h1 room) λ done t (d, h', e).
          let held : t.held ≡ taken s.held = ap (λ (z : Pipe). z.held) e in
          let woken : t.woken_readers ≡ s.woken_readers = ap (λ (z : Pipe). z.woken_readers) e in
          let is_held = subst IsHeld (sym held) (taken-IsHeld s.held) in
          let back : given_back t.held ≡ given_back (taken s.held) = ap given_back held in
          elim (Bool-cases (leb (c + n) pipesize)) [
            | inl all ↦
                let size : taken_bytes (c + n) ≡ c + n = rw all refl in
                let h2 = subst (λ a. Holds t a (joined q c addr 0)) size h' in
                let t1 : Pipe = record t { woken_readers = t.woken_readers + 1 } in
                rw (d ∙ all, unlock_pipe-ok t1 is_held, all)
                  (yields (
                    refl,
                    record { few = h2.few; start = h2.start; stop = h2.stop; byte = h2.byte },
                    back,
                    ap (λ z. z + 1) woken,
                  ))
            | inr part ↦
                let size : taken_bytes (c + n) ≡ pipesize = rw part refl in
                let h2 = subst (λ a. Holds t a (joined q c addr 0)) size h' in
                rw (d ∙ part, unlock_pipe-ok t is_held, part)
                  (yields (
                    refl,
                    record { few = h2.few; start = h2.start; stop = h2.stop; byte = h2.byte },
                    back,
                    woken,
                  ))
          ])
