-- ===== src/Pipe/Read.antt =====
-- piperead takes the first bytes that the pipe holds.
use cs.Prelude.{
  ℕ, zero, suc, ◌+◌, ◌-◌, ◌%◌, ◌^◌, ◌<◌, ◌≡◌, refl, ◌∙◌, ap, sym, subst, ◌⊎◌, inl, inr, true, false,
  ◌&&◌, arith, ◌==◌, ltb, leb, Bool-cases, if◌then◌else◌,
}
use cs.Prelude.Int.{pos}
use cs.Prelude.Run.{Yields, yields, Yields-mono, Yields-bind}
use cs.Proc.Table.{add32}
use cs.Proc.Table.Lock.{IsFree, IsHeld, taken, given_back, taken-IsHeld}
use cs.Pipe.{Pipe, pipesize, wait_bytes, read_bytes, piperead}
use cs.Pipe.Queue.{lock_pipe-ok, unlock_pipe-ok, Holds, Holds-ext, Holds-take}

-- The smaller number.
abbrev pub least : ℕ → ℕ → ℕ
least a b = if leb a b then a else b

-- `m` bytes of the queue `q` put into `addr` from index `i` on.
abbrev pub filled_in : (ℕ → ℕ) → ℕ → ℕ → (ℕ → ℕ) → ℕ → ℕ
filled_in q m i addr j = if leb i j && ltb j (i + m) then q (j - i) else addr j

empty_iff : (s : Pipe) (n : ℕ) (q : ℕ → ℕ) → Holds s n q → (s.nread == s.nwrite) ≡ (n == 0)
empty_iff s n q h = rw h.stop (ground (arith, h.few, h.start))

filled_in-step :
    (q : ℕ → ℕ) (m i : ℕ) (addr : ℕ → ℕ) (j : ℕ)
    → filled_in (λ l. q (1 + l)) m (i + 1) (λ l. if l == i then q 0 else addr l) j
      ≡ filled_in q (suc m) i addr j
filled_in-step q m i addr j = elim (Bool-cases (j == i)) [
  | inl e ↦
      let below : leb (i + 1) j ≡ false = ground arith in
      let inside : (leb i j && ltb j (i + suc m)) ≡ true = ground arith in
      let first : j - i ≡ 0 = ground arith in rw (below, inside, e, first) refl
  | inr o ↦ elim (Bool-cases (leb i j && ltb j (i + suc m))) [
    | inl inside ↦
        let inside1 : (leb (i + 1) j && ltb j (i + 1 + m)) ≡ true = ground arith in
        let same : 1 + (j - (i + 1)) ≡ j - i = ground arith in rw (inside, inside1, same) refl
    | inr outside ↦
        let outside1 : (leb (i + 1) j && ltb j (i + 1 + m)) ≡ false = ground arith in
        rw (outside, outside1, o) refl
  ]
]

-- `k` of `n` bytes are read.
abbrev ReadBytes : Pipe → (n k i : ℕ) → (q addr : ℕ → ℕ) → ℕ × (ℕ → ℕ) → Pipe → Type 0
ReadBytes s n k i q addr r t =
    (r.0 ≡ i + k)
    × ((j : ℕ) → r.1 j ≡ filled_in q k i addr j)
    × Holds t (n - k) (λ j. q (k + j))
    × (t ≡ record s { nread = t.nread })

ReadBytes-none :
    (s : Pipe) (n i : ℕ) (q addr : ℕ → ℕ) → Holds s n q → ReadBytes s n 0 i q addr (i, addr) s
ReadBytes-none s n i q addr h =
    let all : n ≡ n - 0 = omega arith in
    (
      omega arith,
      λ j. ground arith,
      subst (λ a. Holds s a (λ j. q (0 + j))) all
          (Holds-ext s n q (λ j. q (0 + j)) h (λ j lt. ap q (omega arith))),
      refl,
    )

Holds-later :
    (t : Pipe) (n k : ℕ) (q : ℕ → ℕ)
    → Holds t (n - k) (λ j. q (1 + (k + j)))
    → Holds t (suc n - suc k) (λ j. q (suc k + j))
Holds-later t n k q h =
    let same : n - k ≡ suc n - suc k = omega arith in
    subst (λ a. Holds t a (λ j. q (suc k + j))) same
      (Holds-ext t (n - k) (λ j. q (1 + (k + j))) (λ j. q (suc k + j)) h λ j lt. ap q (omega arith))

read_bytes-Holds :
    (m i : ℕ) (addr : ℕ → ℕ) (s : Pipe) (n : ℕ) (q : ℕ → ℕ)
    → Holds s n q
    → Yields (ReadBytes s n (least m n) i q addr) (read_bytes m i addr s)
unfolding read_bytes
read_bytes-Holds zero i addr s n q h =
    let none : 0 ≡ least 0 n = ground arith in
    subst (λ k. Yields (ReadBytes s n k i q addr) (read_bytes 0 i addr s)) none
      (yields (ReadBytes-none s n i q addr h))
read_bytes-Holds (suc m) i addr s zero q h =
    let none : 0 ≡ least (suc m) 0 = ground arith in
    subst (λ k. Yields (ReadBytes s 0 k i q addr) (read_bytes (suc m) i addr s)) none
      (rw (empty_iff s zero q h) (yields (ReadBytes-none s 0 i q addr h)))
read_bytes-Holds (suc m) i addr s (suc n) q h =
    let one : suc (least m n) ≡ least (suc m) (suc n) = ground arith in
    let first : s.data_ (s.nread % pipesize) ≡ q 0 =
      ap (λ a. s.data_ (a % pipesize)) (omega arith) ∙ h.byte 0 (omega arith) in
    let some_left : (s.nread == s.nwrite) ≡ false = empty_iff s (suc n) q h ∙ ground arith in
    subst (λ k. Yields (ReadBytes s (suc n) k i q addr) (read_bytes (suc m) i addr s)) one
      (rw (some_left, first)
        (Yields-mono
          (read_bytes-Holds m (i + 1) (λ j. if j == i then q 0 else addr j)
            (record s { nread = add32 s.nread 1 }) n (λ j. q (1 + j)) (Holds-take s n q h))
          λ r t (e, bytes, rest, same). (
            e ∙ omega arith,
            λ j. bytes j ∙ filled_in-step q (least m n) i addr j,
            Holds-later t n (least m n) q rest,
            same,
          )))

-- piperead of up to `n` bytes, an int that is not negative, from a pipe that holds `c` bytes, with one
-- byte at least or the writer's end closed: it returns the smaller one of n and c, and puts that many
-- bytes into `addr`, the first ones of the pipe, which then holds the others. No other byte of `addr`
-- changes, the writers are woken, and the lock is given back.
pub piperead-Holds :
    (elsewhere : ℕ → Pipe → Pipe) (k n : ℕ) (addr : ℕ → ℕ) (s : Pipe) (c : ℕ) (q : ℕ → ℕ)
    → Holds s c q
    → IsFree s.held
    → n < 2 ^ 31
    → (0 < c) ⊎ (s.writeopen ≡ false)
    → Yields
        (λ r t.
          (r.0 ≡ pos (least n c))
          × ((j : ℕ) → r.1 j ≡ filled_in q (least n c) 0 addr j)
          × Holds t (c - least n c) (λ j. q (least n c + j))
          × (t.held ≡ given_back (taken s.held))
          × (t.woken_writers ≡ s.woken_writers + 1))
        (piperead elsewhere (suc k) addr n s)
unfolding piperead wait_bytes
piperead-Holds elsewhere k n addr s c q h free small ready =
    let few : ltb n (2 ^ 31) ≡ true = ground arith in
    let s1 : Pipe = record s { held = taken s.held } in
    let h1 : Holds s1 c q = record { few = h.few; start = h.start; stop = h.stop; byte = h.byte } in
    let go : ((s.nread == s.nwrite) && s.writeopen) ≡ false =
      rw (empty_iff s c q h) (ground (arith, ready)) in
    rw (lock_pipe-ok s free, go, few)
      (Yields-bind (read_bytes-Holds n 0 addr s1 c q h1) λ r t (e, bytes, rest, same).
        let held : t.held ≡ taken s.held = ap (λ (z : Pipe). z.held) same in
        let woken : t.woken_writers ≡ s.woken_writers = ap (λ (z : Pipe). z.woken_writers) same in
        let t1 : Pipe = record t { woken_writers = t.woken_writers + 1 } in
        rw (unlock_pipe-ok t1 (subst IsHeld (sym held) (taken-IsHeld s.held))) (
          yields (
            ap pos (e ∙ omega arith),
            bytes,
            record { few = rest.few; start = rest.start; stop = rest.stop; byte = rest.byte },
            ap given_back held,
            ap (λ z. z + 1) woken,
          )))
