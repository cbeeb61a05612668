-- ===== src/Files/Counts/First.antt =====
-- filealloc takes the first free entry.
use cs.Prelude.{
  ℕ, zero, suc, ◌+◌, ◌≤◌, ◌<◌, ◌≡◌, refl, ◌≢◌, ◌⊎◌, inl, inr, arith, ◌==◌, ==_ne, Bool-cases,
}
use cs.Prelude.Run.{Yields, yields, Yields-mono, ok}
use cs.Spinlock
use cs.Spinlock.{Held}
use cs.Proc.Table.{Ptr, null}
use cs.Proc.Table.Lock.{IsFree, IsHeld, taken, given_back, taken-IsHeld}
use cs.Files.{nfile, Ftable, put_file, lock_table, unlock_table, alloc_loop, filealloc}

pub lock_table-ok :
    (s : Ftable) → IsFree s.held → lock_table s ≡ ok tt (record s { held = taken s.held })
unfolding lock_table Spinlock.acquire
lock_table-ok s f = rw (f.not_held, f.no_cli) refl

pub unlock_table-ok :
    (s : Ftable) → IsHeld s.held → unlock_table s ≡ ok tt (record s { held = given_back s.held })
unfolding unlock_table Spinlock.release
unlock_table-ok s f = rw (f.is_held, f.cli, f.one_cli) refl

-- `r` is the first free entry from `p` on, now taken, or null if there is none among `k`.
abbrev pub Allocated : Ftable → (k p : ℕ) → Ptr → Ftable → Type 0
Allocated s k p r t =
    ((r ≡ null) × ((q : Ptr) → p ≤ q → q < p + k → (s.file q).ref ≢ 0) × (t.file ≡ s.file))
    ⊎ ((p ≤ r)
        × (r < p + k)
        × ((s.file r).ref ≡ 0)
        × ((q : Ptr) → p ≤ q → q < r → (s.file q).ref ≢ 0)
        × (t.file ≡ put_file s.file r (record (s.file r) { ref = 1 })))

-- An entry that is taken can be put before the range.
Allocated-step :
    (s : Ftable) (k p : ℕ) (r : Ptr) (t : Ftable)
    → (s.file p).ref ≢ 0
    → Allocated s k (p + 1) r t
    → Allocated s (suc k) p r t
Allocated-step s k p r t ne (inl (e, full, same)) = inl (
  e,
  λ q a b. elim (Bool-cases (q == p)) [
    | inl h ↦ let k' : q ≡ p = ground arith in rw k' ne
    | inr h ↦ full q (ground arith) (omega arith)
  ],
  same,
)
Allocated-step s k p r t ne (inr (lo, hi, free, before, same)) = inr (
  omega arith,
  omega arith,
  free,
  λ q a b. elim (Bool-cases (q == p)) [
    | inl h ↦ let k' : q ≡ p = ground arith in rw k' ne
    | inr h ↦ before q (ground arith) b
  ],
  same,
)

alloc_loop-Allocated :
    (k p : ℕ) (s : Ftable)
    → IsHeld s.held
    → 0 < p
    → Yields
        (λ r t. Allocated s k p r t × (t.held ≡ given_back s.held) × (t.calls ≡ s.calls))
        (alloc_loop k p s)
unfolding alloc_loop
alloc_loop-Allocated zero p s held lo =
    rw (unlock_table-ok s held)
      (yields (inl (refl, λ q a b. absurd (omega arith), refl), refl, refl))
alloc_loop-Allocated (suc k) p s held lo =
    rw (==_ne p null (omega arith)) (elim (Bool-cases ((s.file p).ref == 0)) [
      | inl e ↦
          let s1 : Ftable = record s { file = put_file s.file p (record (s.file p) { ref = 1 }) } in
          rw (e, ==_ne p null (omega arith), unlock_table-ok s1 held)
            (yields (
              inr (omega arith, omega arith, ground arith, λ q a b. absurd (omega arith), refl),
              refl,
              refl,
            ))
      | inr o ↦ rw o (
          Yields-mono (alloc_loop-Allocated k (p + 1) s held (omega arith))
            λ r t (a, b, c). (Allocated-step s k p r t (ground arith) a, b, c))
    ])

-- filealloc takes the first entry of the table with no reference, or returns null if there is none,
-- and changes no other entry; it gives the lock back.
pub filealloc-first :
    (s : Ftable)
    → IsFree s.held
    → Yields
        (λ r t.
          Allocated s nfile 1 r t × (t.held ≡ given_back (taken s.held)) × (t.calls ≡ s.calls))
        (filealloc s)
unfolding filealloc
filealloc-first s free =
    let s1 : Ftable = record s { held = taken s.held } in
    rw (lock_table-ok s free) (alloc_loop-Allocated nfile 1 s1 (taken-IsHeld s.held) (omega arith))
