-- ===== src/Inode/Unique.antt =====
-- iget and idup keep at most one entry of icache for an inode.
pub mod Cases
use cs.Prelude.{
  ℕ, zero, suc, ◌+◌, subst, ◌^◌, ◌<◌, ◌≡◌, refl, ◌≢◌, ◌⊎◌, inl, inr, true, false, ◌&&◌, arith, ◌==◌,
  ==_refl, ==_ne, Bool-cases, if◌then◌else◌,
}
use cs.Prelude.Run.{Run, Yields, yields, Yields-mono, ok, panic}
use cs.Spinlock
use cs.Proc.Table.{Ptr, null}
use cs.Proc.Table.Lock.{IsFree, IsHeld, taken, given_back, taken-IsHeld}
use cs.Inode.{
  ninode, Inode, FileSystem, put_inode, lock_icache, unlock_icache, caches, recycled, another,
  recycle_entry, iget_loop, iget,
}
use cs.Inode.Unique.Cases.{Misses, Full, Got, IgetCases, iget-cases}

-- No two entries of the table hold the same inode.
abbrev pub Unique : FileSystem → Type 0
Unique s =
    (dev inum : ℕ) (p q : Ptr)
    → 0 < p
    → p < ninode + 1
    → 0 < q
    → q < ninode + 1
    → caches (s.inode p) dev inum ≡ true
    → caches (s.inode q) dev inum ≡ true
    → p ≡ q

caches-another :
    (f : Ptr → Inode) (dev inum d i : ℕ) (r x : Ptr)
    → caches (f r) dev inum ≡ true
    → caches (put_inode f r (another (f r)) x) d i ≡ true
    → caches (f x) d i ≡ true
caches-another f dev inum d i r x hit h = elim (Bool-cases (x == r)) [
  | inl k ↦
      let e : x ≡ r = ground arith in
      let h' : caches (another (f r)) d i ≡ true =
        subst (λ b. caches (if b then another (f r) else f x) d i ≡ true) k h in
      rw e (same_inode (f r) dev inum d i hit h')
  | inr k ↦ subst (λ b. caches (if b then another (f r) else f x) d i ≡ true) k h
]
  where
    same_inode :
        (n : Inode) (dev inum d i : ℕ)
        → caches n dev inum ≡ true
        → caches (another n) d i ≡ true
        → caches n d i ≡ true
    same_inode n dev inum d i hit h = ground arith

caches-recycled :
    (f : Ptr → Inode) (dev inum d i : ℕ) (r x : Ptr)
    → caches (put_inode f r (recycled dev inum (f r)) x) d i ≡ true
    → ((x ≡ r) × (d ≡ dev) × (i ≡ inum)) ⊎ (caches (f x) d i ≡ true)
caches-recycled f dev inum d i r x h = elim (Bool-cases (x == r)) [
  | inl k ↦
      let h' : caches (recycled dev inum (f r)) d i ≡ true =
        subst (λ b. caches (if b then recycled dev inum (f r) else f x) d i ≡ true) k h in
      inl (ground arith, ground arith, ground arith)
  | inr k ↦ inr (subst (λ b. caches (if b then recycled dev inum (f r) else f x) d i ≡ true) k h)
]

Unique-Got :
    (s : FileSystem) (dev inum : ℕ) (r : Ptr) (t : FileSystem)
    → Unique s
    → Got s dev inum r t
    → Unique t
Unique-Got s dev inum r t u (lo, hi, inl (hit, e), rest) d i p q a b a' b' hp hq =
    u d i p q a b a' b' (back p hp) (back q hq)
  where
    back : (x : Ptr) → caches (t.inode x) d i ≡ true → caches (s.inode x) d i ≡ true
    back x h =
        caches-another s.inode dev inum d i r x hit (subst (λ f. caches (f x) d i ≡ true) e h)
Unique-Got s dev inum r t u (lo, hi, inr (free, miss, e), rest) d i p q a b a' b' hp hq =
    both (back p hp) (back q hq)
  where
    back :
        (x : Ptr)
        → caches (t.inode x) d i ≡ true
        → ((x ≡ r) × (d ≡ dev) × (i ≡ inum)) ⊎ (caches (s.inode x) d i ≡ true)
    back x h = caches-recycled s.inode dev inum d i r x (subst (λ f. caches (f x) d i ≡ true) e h)

    missed :
        (x : Ptr)
        → 0 < x
        → x < ninode + 1
        → d ≡ dev
        → i ≡ inum
        → caches (s.inode x) d i ≡ true
        → p ≡ q
    missed x lo' hi' ed ei h = absurd (
        cc (
          subst (λ z. caches (s.inode x) dev z ≡ true) ei
              (subst (λ z. caches (s.inode x) z i ≡ true) ed h),
          miss x lo' hi',
        ))

    both :
        ((p ≡ r) × (d ≡ dev) × (i ≡ inum)) ⊎ (caches (s.inode p) d i ≡ true)
        → ((q ≡ r) × (d ≡ dev) × (i ≡ inum)) ⊎ (caches (s.inode q) d i ≡ true)
        → p ≡ q
    both (inl (ep, _, _)) (inl (eq, _, _)) = cc
    both (inl (ep, ed, ei)) (inr h) = missed q a' b' ed ei h
    both (inr h) (inl (eq, ed, ei)) = missed p a b ed ei h
    both (inr h) (inr h') = u d i p q a b a' b' h h'

Got-caches :
    (s : FileSystem) (dev inum : ℕ) (r : Ptr) (t : FileSystem)
    → ((q : Ptr) → (s.inode q).ref + 1 < 2 ^ 31)
    → Got s dev inum r t
    → caches (t.inode r) dev inum ≡ true
Got-caches s dev inum r t few (lo, hi, inl (hit, e), rest) =
    rw (e, ==_refl r) (one_more (s.inode r) hit (few r))
  where
    one_more :
        (n : Inode)
        → caches n dev inum ≡ true
        → n.ref + 1 < 2 ^ 31
        → caches (another n) dev inum ≡ true
    one_more n h b = ground arith
Got-caches s dev inum r t few (lo, hi, inr (free, miss, e), rest) =
    rw (e, ==_refl r, ==_refl dev, ==_refl inum) refl

-- The table holds an inode at most once, and iget keeps it so, where no count of references reaches 2^31
-- - 1. With the lock free it panics exactly where no entry holds the inode and none is free; otherwise it
-- returns an entry that holds it, with one reference more, or, where no entry held it, a free one that
-- now holds it with one reference, neither busy nor valid; it changes nothing else of the table, and
-- gives the lock back.
pub iget-Unique :
    (s : FileSystem) (dev inum : ℕ)
    → IsFree s.held
    → Unique s
    → ((q : Ptr) → (s.inode q).ref + 1 < 2 ^ 31)
    → ((iget dev inum s ≡ panic "iget: no inodes")
        × Misses s dev inum (ninode + 1)
        × Full s (ninode + 1))
      ⊎ Yields
          (λ r t.
            Got (record s { held = taken s.held }) dev inum r t
            × (caches (t.inode r) dev inum ≡ true)
            × Unique t)
          (iget dev inum s)
iget-Unique s dev inum free u few = elim (iget-cases s dev inum free) [
  | inl failed ↦ inl failed
  | inr done ↦ inr (
      Yields-mono done
        λ r t got. (got, Got-caches s' dev inum r t few got, Unique-Got s' dev inum r t u got))
]
  where
    s' : FileSystem
    s' = record s { held = taken s.held }
