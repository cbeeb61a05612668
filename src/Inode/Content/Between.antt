-- ===== src/Inode/Content/Between.antt =====
-- Copies between two arrays, and the content of a file as a function from offsets to bytes.
use cs.Prelude.{
  ℕ, zero, suc, ◌+◌, ◌-◌, ◌*◌, ◌/◌, ◌%◌, ◌<◌, ◌≡◌, ◌≢◌, Bool-cases, inl, inr, arith, ◌==◌, ltb, leb,
  ◌&&◌, if◌then◌else◌, true,
}
use cs.Prelude.Run.{ok}
use cs.Bytes.{Memory, poke, word_at}
use cs.Proc.Table.{Ptr, null}
use cs.Fs.{bsize}
use cs.Inode.{FileSystem}
use cs.Inode.Dinode.{ndirect}
use cs.Inode.Blocks.{nindirect, slot, indirect_entry, bmap}
use cs.Inode.Blocks.Steady.{slot-has, indirect_entry-has}
use cs.Inode.Content.{copy_between}

-- `n` bytes of `src` from c on have come to d.
abbrev pub spliced : (n d c : ℕ) → (src dst : Memory) → Memory
spliced n d c src dst a = if leb d a && ltb a (d + n) then src (c + (a - d)) else dst a

pub copy_between-spliced :
    (n d c : ℕ) (src dst : Memory) (a : ℕ) → copy_between n d c src dst a ≡ spliced n d c src dst a
unfolding copy_between
copy_between-spliced zero d c src dst a = ground arith
copy_between-spliced (suc n) d c src dst a =
    ground (arith, copy_between-spliced n (d + 1) (c + 1) src (poke dst d (src c)) a)

-- Two copies that follow one another.
pub spliced-spliced :
    (m n d c : ℕ) (src dst : Memory) (a : ℕ)
    → spliced n (d + m) (c + m) src (spliced m d c src dst) a ≡ spliced (m + n) d c src dst a
spliced-spliced m n d c src dst a = ground arith

-- The block with number `bn` of the inode at `p`; 0 is none.
abbrev pub block_of : FileSystem → Ptr → ℕ → ℕ
block_of s p bn =
    if ltb bn ndirect
    then (s.inode p).addrs bn
    else if (s.inode p).addrs ndirect == 0
    then 0
    else word_at (s.fs.cache ((s.inode p).addrs ndirect)) (4 * (bn - ndirect))

abbrev pub content : FileSystem → Ptr → Memory
content s p i = s.fs.cache (block_of s p (i / bsize)) (i % bsize)

indirect-has :
    (s : FileSystem) (p : Ptr) (bn : ℕ)
    → p ≢ null
    → 0 < (
        if (s.inode p).addrs ndirect == 0
        then 0
        else word_at (s.fs.cache ((s.inode p).addrs ndirect)) (4 * bn))
    → (slot p ndirect s ≡ ok ((s.inode p).addrs ndirect) s)
      × (indirect_entry ((s.inode p).addrs ndirect) bn s
          ≡ ok
              (if (s.inode p).addrs ndirect == 0
                then 0
                else word_at (s.fs.cache ((s.inode p).addrs ndirect)) (4 * bn))
              s)
indirect-has s p bn np has = elim (Bool-cases ((s.inode p).addrs ndirect == 0)) [
  | inl none ↦ absurd (ground (arith, has, none))
  | inr some ↦
      let pos : 0 < (s.inode p).addrs ndirect = ground arith in
      let filled : 0 < word_at (s.fs.cache ((s.inode p).addrs ndirect)) (4 * bn) =
        ground (arith, has, some) in
      rw some
        (slot-has s p ndirect np pos, indirect_entry-has s ((s.inode p).addrs ndirect) bn filled)
]

-- A block that the file has is found, and nothing changes.
pub bmap-has :
    (s : FileSystem) (p : Ptr) (bn : ℕ)
    → p ≢ null
    → bn < ndirect + nindirect
    → 0 < block_of s p bn
    → bmap p bn s ≡ ok (block_of s p bn) s
unfolding bmap
bmap-has s p bn np lt has = elim (Bool-cases (ltb bn ndirect)) [
  | inl near ↦
      let here : 0 < (s.inode p).addrs bn = ground (arith, has, near) in
      rw near (slot-has s p bn np here)
  | inr far ↦
      let inside : ltb (bn - ndirect) nindirect ≡ true = ground arith in
      let (first, second) = indirect-has s p (bn - ndirect) np (ground (arith, has, far)) in
      rw (far, inside, first) second
]
