-- ===== src/Inode/Unique/Cases.antt =====
-- What iget returns, on every branch.
use cs.Prelude.{
  ℕ, zero, suc, ◌+◌, ◌%◌, ◌^◌, subst, ◌<◌, ◌≡◌, refl, ◌≢◌, ◌⊎◌, inl, inr, true, false, ◌&&◌, arith,
  ◌==◌, ==_ne, Bool-cases, if◌then◌else◌,
}
use cs.Prelude.Run.{Run, Yields, yields, ok, panic}
use cs.Spinlock
use cs.Proc.Table.{Ptr, null}
use cs.Proc.Table.Lock.{IsFree, IsHeld, taken, given_back, taken-IsHeld}
use cs.Inode.{
  ninode, FileSystem, put_inode, lock_icache, unlock_icache, caches, recycled, another,
  recycle_entry, iget_loop, iget,
}

pub lock_icache-ok :
    (s : FileSystem) → IsFree s.held → lock_icache s ≡ ok tt (record s { held = taken s.held })
unfolding lock_icache Spinlock.acquire
lock_icache-ok s f = rw (f.not_held, f.no_cli) refl

pub unlock_icache-ok :
    (s : FileSystem)
    → IsHeld s.held
    → unlock_icache s ≡ ok tt (record s { held = given_back s.held })
unfolding unlock_icache Spinlock.release
unlock_icache-ok s f = rw (f.is_held, f.cli, f.one_cli) refl

-- The entries before `p` do not hold the inode.
abbrev pub Misses : FileSystem → (dev inum p : ℕ) → Type 0
Misses s dev inum p = (q : Ptr) → 0 < q → q < p → caches (s.inode q) dev inum ≡ false

abbrev pub Full : FileSystem → (p : ℕ) → Type 0
Full s p = (q : Ptr) → 0 < q → q < p → (s.inode q).ref ≢ 0

-- `r` is the entry that holds the inode, with one reference more, or a free one that now holds it, with
-- one reference, neither busy nor valid, where no entry did.
abbrev pub Got : FileSystem → (dev inum : ℕ) → Ptr → FileSystem → Type 0
Got s dev inum r t =
    (0 < r)
    × (r < ninode + 1)
    × (((caches (s.inode r) dev inum ≡ true)
          × (t.inode
              ≡ put_inode s.inode r (record (s.inode r) { ref = ((s.inode r).ref + 1) % 2 ^ 32 })))
        ⊎ ((s.inode r).ref ≡ 0)
          × Misses s dev inum (ninode + 1)
          × (t.inode
              ≡ put_inode s.inode r (record (s.inode r) {
                dev = dev;
                inum = inum;
                ref = 1;
                busy = false;
                valid = false;
              })))
    × (t ≡ record s { inode = t.inode; held = given_back s.held })

-- Without an entry for the inode and without a free one iget panics.
abbrev pub IgetCases : FileSystem → (dev inum : ℕ) → Run FileSystem Ptr → Type 0
IgetCases s dev inum run =
    ((run ≡ panic "iget: no inodes") × Misses s dev inum (ninode + 1) × Full s (ninode + 1))
    ⊎ Yields (Got s dev inum) run

-- What the loop knows of the entries before `p`.
abbrev Empty : FileSystem → (p empty : Ptr) → Type 0
Empty s p empty =
    ((empty ≡ null) × Full s p) ⊎ ((0 < empty) × (empty < p) × ((s.inode empty).ref ≡ 0))

Empty-next :
    (s : FileSystem) (p empty : ℕ)
    → 0 < p
    → Empty s p empty
    → Empty s (p + 1) (if (empty == null) && ((s.inode p).ref == 0) then p else empty)
Empty-next s p empty lo (inr (pos, below, free)) =
    rw (==_ne empty null (omega arith)) (inr (pos, omega arith, free))
Empty-next s p empty lo (inl (e, full)) = rw e (elim (Bool-cases ((s.inode p).ref == 0)) [
  | inl h ↦ rw h (inr (lo, omega arith, ground arith))
  | inr h ↦ rw h (
      inl (
        refl,
        λ q a b. elim (Bool-cases (q == p)) [
          | inl k ↦ let same : q ≡ p = ground arith in rw same (ground arith)
          | inr k ↦ full q a (ground arith)
        ],
      ))
])

iget_loop-IgetCases :
    (s : FileSystem) (dev inum k p empty : ℕ)
    → IsHeld s.held
    → 0 < p
    → p + k ≡ ninode + 1
    → Empty s p empty
    → Misses s dev inum p
    → IgetCases s dev inum (iget_loop dev inum k p empty s)
unfolding iget_loop recycle_entry
iget_loop-IgetCases s dev inum zero p empty held lo end known miss = elim known [
  | inl (e, full) ↦
      let last : p ≡ ninode + 1 = omega arith in
      rw e (inl (refl, subst (Misses s dev inum) last miss, subst (Full s) last full))
  | inr (pos, below, free) ↦
      let s1 : FileSystem = record s {
        inode = put_inode s.inode empty (recycled dev inum (s.inode empty));
      } in
      rw (==_ne empty null (omega arith), ==_ne empty null (omega arith), unlock_icache-ok s1 held)
        (inr (
          yields (
            pos,
            omega arith,
            inr (free, subst (Misses s dev inum) (omega arith) miss, refl),
            refl,
          )))
]
iget_loop-IgetCases s dev inum (suc k) p empty held lo end known miss =
    rw (==_ne p null (omega arith)) (elim (Bool-cases (caches (s.inode p) dev inum)) [
      | inl hit ↦
          let s1 : FileSystem = record s { inode = put_inode s.inode p (another (s.inode p)) } in
          rw (hit, ==_ne p null (omega arith), unlock_icache-ok s1 held)
            (inr (yields (lo, omega arith, inl (hit, refl), refl)))
      | inr other ↦ rw other (
          iget_loop-IgetCases s dev inum k (p + 1)
            (if (empty == null) && ((s.inode p).ref == 0) then p else empty) held (omega arith)
            (omega arith) (Empty-next s p empty lo known)
            (λ q a b. elim (Bool-cases (q == p)) [
              | inl h ↦ let e : q ≡ p = ground arith in rw e other
              | inr h ↦ miss q a (ground arith)
            ]))
    ])

-- iget, with the lock free, panics exactly where no entry holds the inode and none is free; otherwise
-- it returns an entry that holds it, with one reference more or recycled, changes no other entry, and
-- gives the lock back.
pub iget-cases :
    (s : FileSystem) (dev inum : ℕ)
    → IsFree s.held
    → IgetCases (record s { held = taken s.held }) dev inum (iget dev inum s)
unfolding iget
iget-cases s dev inum free = rw (lock_icache-ok s free) (
    iget_loop-IgetCases (record s { held = taken s.held }) dev inum ninode 1 null
      (taken-IsHeld s.held) (omega arith) refl (inl (refl, λ q a b. absurd (omega arith)))
      (λ q a b. absurd (omega arith)))
