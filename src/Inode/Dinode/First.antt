-- ===== src/Inode/Dinode/First.antt =====
-- ialloc takes the first free inode of the disk.
use cs.Prelude.{
  ℕ, zero, suc, ◌+◌, ◌-◌, ◌/◌, ◌%◌, ◌≤◌, ◌<◌, ◌≡◌, refl, sym, ◌∙◌, ap, ◌≢◌, ◌⊎◌, inl, inr, ◌∷◌,
  true, false, ltb, leb, ◌&&◌, arith, ◌==◌, ==_refl, Bool-cases, if◌then◌else◌,
}
use cs.Prelude.Run.{Run, panic}
use cs.Bytes.{Memory, memset}
use cs.Bytes.Fill.{memset-filled}
use cs.Proc.Table.{Ptr}
use cs.Inode.{FileSystem, iget}
use cs.Inode.Dinode.{dinode, dinode_size, iblock, ipb, half_at, poke_half, ialloc_loop, ialloc}

-- Byte `x` of an inode on the disk, and its type.
abbrev pub disk_byte : FileSystem → (inum x : ℕ) → ℕ
disk_byte s inum x = s.fs.cache (iblock s inum) (dinode inum + x)

abbrev pub disk_type : FileSystem → (inum : ℕ) → ℕ
disk_type s inum = half_at (s.fs.cache (iblock s inum)) (dinode inum)

-- The state in which the inode has got a type, and zeros else.
abbrev pub marked : FileSystem → (type_ inum : ℕ) → FileSystem
marked s type_ inum = record s {
  fs = record s.fs {
    cache = λ c.
        if c == iblock s inum
        then poke_half (memset (dinode inum) 0 dinode_size (s.fs.cache (iblock s inum)))
            (dinode inum) type_
        else s.fs.cache c;
    logged = iblock s inum ∷ s.fs.logged;
  };
}

abbrev pub InUse : FileSystem → (lo hi : ℕ) → Type 0
InUse s lo hi = (i : ℕ) → lo ≤ i → i < hi → disk_type s i ≢ 0

-- The first free inode from `lo` on is taken, or there is none.
abbrev pub IallocCases : FileSystem → (dev type_ lo : ℕ) → Run FileSystem Ptr → Type 0
IallocCases s dev type_ lo run =
    ((run ≡ panic "ialloc: no inodes") × InUse s lo s.ninodes)
    ⊎ ((i : ℕ) × (lo ≤ i)
        × (i < s.ninodes)
        × (disk_type s i ≡ 0)
        × InUse s lo i
        × (run ≡ iget dev i (marked s type_ i)))

IallocCases-step :
    (s : FileSystem) (dev type_ lo : ℕ) (run : Run FileSystem Ptr)
    → disk_type s lo ≢ 0
    → IallocCases s dev type_ (lo + 1) run
    → IallocCases s dev type_ lo run
IallocCases-step s dev type_ lo run used cases = elim cases [
  | inl (e, all) ↦ inl (e, later s.ninodes all)
  | inr (i, low, high, free, before, e) ↦ inr (i, omega arith, high, free, later i before, e)
]
  where
    later : (hi : ℕ) → InUse s (lo + 1) hi → InUse s lo hi
    later hi all i a b = elim (Bool-cases (i == lo)) [
      | inl k ↦ let same : i ≡ lo = ground arith in λ e. used (ap (disk_type s) (sym same) ∙ e)
      | inr k ↦ all i (ground arith) b
    ]

ialloc_loop-cases :
    (s : FileSystem) (dev type_ k inum : ℕ)
    → inum + k ≡ s.ninodes
    → IallocCases s dev type_ inum (ialloc_loop dev type_ k inum s)
unfolding ialloc_loop
ialloc_loop-cases s dev type_ zero inum end = inl (refl, λ i a b. absurd (omega arith))
ialloc_loop-cases s dev type_ (suc k) inum end = elim (Bool-cases (disk_type s inum == 0)) [
  | inl e ↦
      rw e (inr (inum, omega arith, omega arith, ground arith, λ i a b. absurd (omega arith), refl))
  | inr e ↦ rw e (
      IallocCases-step s dev type_ inum _ (ground arith)
        (ialloc_loop-cases s dev type_ k (inum + 1) (omega arith)))
]

reset_byte :
    (m : Memory) (a type_ c : ℕ)
    → poke_half (memset a 0 dinode_size m) a type_ c ≡ (
        if c == a + 1
        then type_ / 256 % 256
        else if c == a
        then type_ % 256
        else if leb a c && ltb c (a + dinode_size)
        then 0
        else m c)
reset_byte m a type_ c = ground (arith, memset-filled a 0 dinode_size m c)

-- The bytes of the inode that is taken: its type, and zeros.
abbrev pub fresh_byte : (type_ x : ℕ) → ℕ
fresh_byte type_ x = if x == 1 then type_ / 256 % 256 else if x == 0 then type_ % 256 else 0

marked-disk_byte :
    (s : FileSystem) (type_ i j x : ℕ)
    → x < dinode_size
    → disk_byte (marked s type_ i) j x ≡ (if j == i then fresh_byte type_ x else disk_byte s j x)
marked-disk_byte s type_ i j x small = elim (Bool-cases (iblock s j == iblock s i)) [
  | inr far ↦ let other : (j == i) ≡ false = ground arith in rw (far, other) refl
  | inl near ↦
      let block : iblock s j ≡ iblock s i = ground arith in
      rw near (
        reset_byte (s.fs.cache (iblock s i)) (dinode i) type_ (dinode j + x)
        ∙ elim (Bool-cases (j == i)) [
          | inl here ↦
              let e : j ≡ i = ground arith in
              let high : (dinode i + x == dinode i + 1) ≡ (x == 1) = ground arith in
              let low : (dinode i + x == dinode i) ≡ (x == 0) = ground arith in
              let inside : (leb (dinode i) (dinode i + x)
                    && ltb (dinode i + x) (dinode i + dinode_size))
                  ≡ true =
                ground arith in
              rw e (rw (==_refl i, high, low, inside) refl)
          | inr there ↦
              let apart : j % ipb ≢ i % ipb = ground arith in
              let high : (dinode j + x == dinode i + 1) ≡ false = ground arith in
              let low : (dinode j + x == dinode i) ≡ false = ground arith in
              let outside : (leb (dinode i) (dinode j + x)
                    && ltb (dinode j + x) (dinode i + dinode_size))
                  ≡ false =
                ground arith in
              rw (there, high, low, outside) (ap (λ b. s.fs.cache b (dinode j + x)) (sym block))
        ])
]

-- ialloc panics exactly where every inode from 1 on is in use. Otherwise it takes the first free one: the
-- rest is iget of it on a disk where it has the type, all its other bytes are zeros, and all other inodes
-- are as they were.
pub ialloc-first :
    (s : FileSystem) (dev type_ : ℕ)
    → 0 < s.ninodes
    → ((ialloc dev type_ s ≡ panic "ialloc: no inodes") × InUse s 1 s.ninodes)
      ⊎ ((i : ℕ) × (0 < i)
          × (i < s.ninodes)
          × (disk_type s i ≡ 0)
          × InUse s 1 i
          × ((t : FileSystem) × (ialloc dev type_ s ≡ iget dev i t)
              × (t.inode ≡ s.inode)
              × ((j x : ℕ)
                  → x < dinode_size
                  → disk_byte t j x ≡ (if j == i then fresh_byte type_ x else disk_byte s j x))))
unfolding ialloc
ialloc-first s dev type_ some =
    elim (ialloc_loop-cases s dev type_ (s.ninodes - 1) 1 (omega arith)) [
      | inl none ↦ inl none
      | inr (i, low, high, free, before, e) ↦
          inr (i, low, high, free, before, (marked s type_ i, e, refl, marked-disk_byte s type_ i))
    ]
