-- ===== src/Inode/Tests.antt =====
-- The theorems about inodes on a disk of 64 blocks: block 1 has the bitmap, block 2 the inodes. Inode 1,
-- the only one in memory, is a directory whose block 5 has the entry "a" for inode 3 and an empty one.
use cs.Prelude.{
  ℕ, ◌+◌, ◌/◌, ◌^◌, ◌<◌, ◌≡◌, refl, ap, ◌⊎◌, inl, inr, true, false, [], ◌∷◌, arith, ◌==◌,
  Bool-cases, if◌then◌else◌, none,
}
use cs.Prelude.Int.{pos}
use cs.Prelude.Run.{Yields, panic, ok, modify, ◌>>=◌, ◌>>◌}
use cs.Bytes.{Memory}
use cs.Proc.Table.{Ptr}
use cs.Proc.Table.Lock.{IsFree, taken}
use cs.Fs.{Fs, bblock}
use cs.Fs.Bitmap.Bits.{is_free}
use cs.Fs.Cases.{IsSound}
use cs.Inode.{ninode, Inode, FileSystem, caches, iget, idup}
use cs.Inode.Unique.{Unique, iget-Unique}
use cs.Inode.Unique.Cases.{Misses, Full, Got}
use cs.Inode.Dinode.{iblock, dinode_size, iupdate, ialloc}
use cs.Inode.Dinode.First.{disk_type, disk_byte, fresh_byte, InUse, ialloc-first}
use cs.Inode.Lock.{ilock}
use cs.Inode.Lock.Copies.{Fits}
use cs.Inode.Lock.Trip.{Keeps, Locked, ilock-iupdate}
use cs.Inode.Blocks.{bmap}
use cs.Inode.Blocks.Steady.{WantsIndirect, bmap-bmap}
use cs.Inode.Put.{iput}
use cs.Inode.Put.Refs.{iput-idup}
use cs.Inode.Content.{Devices, readi, writei}
use cs.Inode.Content.Between.{block_of}
use cs.Inode.Content.Read.{HasBlocks, Reads, readi-content}
use cs.Inode.Content.Write.{IsLaidOut, indirect}
use cs.Inode.Content.Trip.{readi-writei}
use cs.Inode.Directory.{dirlookup}
use cs.Inode.Directory.First.{IsDirectory, LookupCases, entries, dirlookup-first}
use cs.Inode.Path.{Namex, namex, slash}
use cs.Inode.Path.Elements.{
  HasElements, next_element, no_elements, is_element, follows_slash, follows_end, Takes,
  skipelem-Takes,
}
use cs.Inode.Path.Walk.{walk_elements, namex-walk_elements}

abbrev disk : Fs
disk = record {
  cache = λ c a.
      if c == 1
      then (if a == 0 then 63 else 0)
      else if c == 5
      then (if a == 0 then 3 else if a == 2 then 97 else 0)
      else 0;
  size = 64;
  bmapstart = 1;
  logged = [];
}

abbrev root : Inode
root = record {
  dev = 1;
  inum = 1;
  ref = 1;
  busy = true;
  valid = true;
  type_ = 1;
  major = 0;
  minor = 0;
  nlink = 1;
  size = 32;
  addrs = λ i. if i == 0 then 5 else 0;
}

abbrev small : FileSystem
small = record {
  fs = disk;
  inode = λ p. if p == 1 then root else record root { ref = 0 };
  held = record { cpu = record { interrupts = true; ncli = 0; intena = false }; holding = false };
  ninodes = 16;
  inodestart = 2;
  woken = [];
}

free : IsFree small.held
free = record { not_held = refl; no_cli = refl }

only_root : (d i : ℕ) (q : Ptr) → caches (small.inode q) d i ≡ true → q ≡ 1
only_root d i q h = elim (Bool-cases (q == 1)) [
  | inl k ↦ ground arith
  | inr k ↦ absurd (ground (arith, h))
]

one_each : Unique small
one_each d i p q a b c e hp hq = cc (only_root d i p hp, only_root d i q hq)

few : (q : Ptr) → (small.inode q).ref + 1 < 2 ^ 31
few q = ground arith

iget-Unique_example :
    ((iget 1 3 small ≡ panic "iget: no inodes")
      × Misses small 1 3 (ninode + 1)
      × Full small (ninode + 1))
    ⊎ Yields
        (λ r t.
          Got (record small { held = taken small.held }) 1 3 r t
          × (caches (t.inode r) 1 3 ≡ true)
          × Unique t)
        (iget 1 3 small)
iget-Unique_example = iget-Unique small 1 3 free one_each few

ialloc-first_example :
    ((ialloc 1 2 small ≡ panic "ialloc: no inodes") × InUse small 1 16)
    ⊎ ((i : ℕ) × (0 < i)
        × (i < 16)
        × (disk_type small i ≡ 0)
        × InUse small 1 i
        × ((t : FileSystem) × (ialloc 1 2 small ≡ iget 1 i t)
            × (t.inode ≡ small.inode)
            × ((j x : ℕ)
                → x < dinode_size
                → disk_byte t j x ≡ (if j == i then fresh_byte 2 x else disk_byte small j x))))
ialloc-first_example = ialloc-first small 1 2 (omega arith)

-- Other processes put the inode in the table again, not yet read.
abbrev again : FileSystem → FileSystem
again t = record t { inode = λ _. record root { busy = false; valid = false }; held = small.held }

again-Keeps : Keeps small 1 2 again
again-Keeps = record {
  same_block = λ t. refl;
  same_start = λ t. refl;
  lock_free = λ t. free;
  unread = λ t. record { same_inum = refl; referred = refl; idle = refl; invalid = refl };
}

root-Fits : Fits root
root-Fits = record {
  type_fits = omega arith;
  major_fits = omega arith;
  minor_fits = omega arith;
  nlink_fits = omega arith;
  size_fits = omega arith;
  addrs_fit = λ i. ground arith;
}

ilock-iupdate_example :
    Yields (λ _ v. Locked root 2 v) ((iupdate 1 >> (modify again >> ilock (λ _ t. t) 1 2)) small)
ilock-iupdate_example =
    ilock-iupdate small 1 2 again (λ _ t. t) 0 (omega arith) (omega arith) root-Fits (omega arith)
      again-Keeps

disk-IsSound : IsSound disk
disk-IsSound = record {
  bytes = λ c a. ground arith;
  own_used = λ c lt. let same : bblock disk c ≡ 1 = omega arith in ap (is_free disk) same;
  zero_used = refl;
  size_fits = omega arith;
}

-- The 20th block is in the indirect block, which is not there yet.
bmap-bmap_example :
    ((bmap 1 20 small ≡ panic "balloc: out of blocks") × WantsIndirect small 1 20)
    ⊎ Yields (λ a t. (0 < a) × (bmap 1 20 t ≡ ok a t)) (bmap 1 20 small)
bmap-bmap_example = bmap-bmap small 1 20 (omega arith) disk-IsSound (omega arith)

iput-idup_example :
    Yields
      (λ _ t. ((q : Ptr) → t.inode q ≡ small.inode q) × (t.fs ≡ disk) × IsFree t.held)
      ((idup 1 >>= λ q. iput q) small)
iput-idup_example = iput-idup small 1 free (omega arith) (omega arith) (omega arith)

no_devices : Devices
no_devices = record { read = λ _. none; write = λ _. none }

first_block : (i : ℕ) → i < 32 → block_of small 1 (i / 512) ≡ 5
first_block i lt = let e : i / 512 ≡ 0 = omega arith in ap (block_of small 1) e

root-HasBlocks : HasBlocks small 1 32
root-HasBlocks i lt = omega (arith, first_block i lt)

abbrev bytes : Memory
bytes a = 97

readi-content_example :
    Yields (Reads small 1 bytes 100 8 500) (readi no_devices 1 bytes 100 8 500 small)
readi-content_example =
    readi-content no_devices small 1 bytes 100 8 500 (omega arith) (omega arith) (omega arith)
      (omega arith) (omega arith) root-HasBlocks

root-IsLaidOut : IsLaidOut (block_of small 1) (indirect small 1) (iblock small 1) 32
root-IsLaidOut = record {
  has = root-HasBlocks;
  distinct = λ i j a b e. omega arith;
  not_indirect = λ i lt e. omega (arith, first_block i lt, e);
  not_inode = λ i lt e. omega (arith, first_block i lt, e);
  indirect_not_inode = omega arith;
}

readi-writei_example :
    Yields
      (λ r _. (r.0 ≡ pos 16) × ((j : ℕ) → j < 16 → r.1 (100 + j) ≡ bytes (300 + j)))
      ((writei no_devices 1 bytes 300 16 16 >>= λ _. readi no_devices 1 bytes 100 16 16) small)
readi-writei_example =
    readi-writei no_devices small 1 bytes 300 16 16 32 (omega arith) (omega arith) (omega arith)
      (omega arith) (omega arith) (omega arith) root-IsLaidOut bytes 100

root-IsDirectory : IsDirectory small 1
root-IsDirectory = record {
  not_null = omega arith;
  kind = refl;
  whole = refl;
  size_max = omega arith;
  blocks = root-HasBlocks;
}

dirlookup-first_example :
    LookupCases small 1 100 200 0
      (entries small 1 200 bytes)
      (dirlookup no_devices 1 100 200 bytes small)
dirlookup-first_example = dirlookup-first no_devices small 1 100 200 bytes root-IsDirectory

-- The path "/a//b".
a_b-HasElements : HasElements (slash ∷ 97 ∷ slash ∷ slash ∷ 98 ∷ []) ((97 ∷ []) ∷ (98 ∷ []) ∷ [])
a_b-HasElements =
    next_element 1 (is_element {cs = []} (omega arith) tt) follows_slash
      (next_element 2 (is_element {cs = []} (omega arith) tt) follows_end (no_elements 0))

skipelem-Takes_example :
    Takes (slash ∷ 97 ∷ slash ∷ slash ∷ 98 ∷ []) 100 bytes ((97 ∷ []) ∷ (98 ∷ []) ∷ [])
skipelem-Takes_example =
    skipelem-Takes (slash ∷ 97 ∷ slash ∷ slash ∷ 98 ∷ []) ((97 ∷ []) ∷ (98 ∷ []) ∷ []) 100 bytes
      a_b-HasElements

abbrev context : Namex
context = record { devs = no_devices; elsewhere = λ _ t. t; rounds = 1; name = 100; de = 200 }

namex-walk_elements_example :
    namex context 1 true (slash ∷ 97 ∷ slash ∷ slash ∷ 98 ∷ []) bytes
    ≡ (iget 1 1 >>= λ ip. walk_elements context true ip ((97 ∷ []) ∷ (98 ∷ []) ∷ []) bytes)
namex-walk_elements_example =
    namex-walk_elements context 1 true (slash ∷ 97 ∷ slash ∷ slash ∷ 98 ∷ [])
      ((97 ∷ []) ∷ (98 ∷ []) ∷ []) bytes a_b-HasElements
