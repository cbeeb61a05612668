-- ===== src/Inode.antt =====
-- The inodes of fs.c in memory: the table icache, and iget, idup and iunlock, which keep it. Entry i of
-- icache.inode is at the pointer i + 1, and 0 is null. The children add what is on the disk.
pub mod Unique
pub mod Dinode
pub mod Lock
pub mod Blocks
pub mod Put
pub mod Content
pub mod Directory
pub mod Path
mod Tests
use Prim.Native.String.{String}
use cs.Prelude.{
  ℕ, zero, suc, ◌+◌, Bool, true, false, List, ◌∷◌, ◌&&◌, ◌||◌, ◌==◌, not, if◌then◌else◌,
}
use cs.Prelude.Run.{Run, Cmd, ok, panic, fault, out_of_fuel, pure, fetch, modify, ◌>>=◌, ◌>>◌}
use cs.Spinlock
use cs.Spinlock.{Held, within}
use cs.Proc.Table.{Ptr, null, add32, not_positive}
use cs.Fs.{Fs}

abbrev pub ninode : ℕ
ninode = 50

-- struct inode. `busy` and `valid` are I_BUSY and I_VALID of `flags`; `ref` and the shorts are bit
-- patterns.
pub record Inode : Type 0 where
  pub dev : ℕ
  pub inum : ℕ
  pub ref : ℕ
  pub busy : Bool
  pub valid : Bool
  pub type_ : ℕ
  pub major : ℕ
  pub minor : ℕ
  pub nlink : ℕ
  pub size : ℕ
  pub addrs : ℕ → ℕ

-- icache, the disk, and `ninodes` and `inodestart` of the superblock. `woken` has the inodes given
-- to wakeup, the last first.
pub record FileSystem : Type 0 where
  pub fs : Fs
  pub inode : Ptr → Inode
  pub held : Held
  pub ninodes : ℕ
  pub inodestart : ℕ
  pub woken : List Ptr

abbrev pub put_inode : (Ptr → Inode) → Ptr → Inode → Ptr → Inode
put_inode f p v q = if q == p then v else f q

-- acquire(&icache.lock) and release(&icache.lock).
unfoldable pub lock_icache : Cmd FileSystem (Unit {0})
lock_icache = within (λ s. s.held) (λ s h. record s { held = h }) Spinlock.acquire

unfoldable pub unlock_icache : Cmd FileSystem (Unit {0})
unlock_icache = within (λ s. s.held) (λ s h. record s { held = h }) Spinlock.release

abbrev pub read_inode : Ptr → Cmd FileSystem Inode
read_inode p s = if p == null then fault else ok (s.inode p) s

abbrev pub write_inode : Ptr → (Inode → Inode) → Cmd FileSystem (Unit {0})
write_inode p f s =
    if p == null then fault else ok tt (record s { inode = put_inode s.inode p (f (s.inode p)) })

abbrev pub lifted : {A : Type 0} → FileSystem → Run Fs A → Run FileSystem A
lifted s (ok a d) = ok a (record s { fs = d })
lifted s (panic why) = panic why
lifted s fault = fault
lifted s out_of_fuel = out_of_fuel

-- What the code does with the disk and its bitmap.
abbrev pub on_disk : {A : Type 0} → Cmd Fs A → Cmd FileSystem A
on_disk m s = lifted s (m s.fs)

-- ip->ref > 0 && ip->dev == dev && ip->inum == inum.
abbrev pub caches : Inode → (dev inum : ℕ) → Bool
caches ip dev inum = not (not_positive ip.ref) && ((ip.dev == dev) && (ip.inum == inum))

abbrev pub recycled : (dev inum : ℕ) → Inode → Inode
recycled dev inum ip = record ip { dev = dev; inum = inum; ref = 1; busy = false; valid = false }

abbrev pub another : Inode → Inode
another ip = record ip { ref = add32 ip.ref 1 }

-- The end of iget with the empty entry that the loop has found.
unfoldable pub recycle_entry : (dev inum : ℕ) → (empty : Ptr) → Cmd FileSystem Ptr
unfolding unlock_icache
recycle_entry dev inum empty =
    if empty == null
    then (λ _. panic "iget: no inodes")
    else (do write_inode empty (recycled dev inum); unlock_icache; pure empty)

-- The loop of iget from `p` on, `k` entries.
unfoldable pub iget_loop : (dev inum k : ℕ) → (p empty : Ptr) → Cmd FileSystem Ptr
unfolding recycle_entry unlock_icache
iget_loop dev inum zero p empty = recycle_entry dev inum empty
iget_loop dev inum (suc k) p empty = do
  ip ← read_inode p
  if caches ip dev inum
      then (do write_inode p another; unlock_icache; pure p)
      else iget_loop dev inum k (p + 1) (if (empty == null) && (ip.ref == 0) then p else empty)

unfoldable pub iget : (dev inum : ℕ) → Cmd FileSystem Ptr
iget dev inum = do lock_icache; iget_loop dev inum ninode 1 null

unfoldable pub idup : Ptr → Cmd FileSystem Ptr
idup p = do lock_icache; write_inode p another; unlock_icache; pure p

-- wakeup(ip).
abbrev pub wakeup_inode : Ptr → Cmd FileSystem (Unit {0})
wakeup_inode p = modify (λ s. record s { woken = p ∷ s.woken })

-- `p == 0 || !(p->flags & I_BUSY) || p->ref < 1`.
abbrev pub unlockable : Ptr → Inode → Bool
unlockable p ip = not (p == null) && (ip.busy && not (not_positive ip.ref))

unfoldable pub iunlock : Ptr → Cmd FileSystem (Unit {0})
unfolding lock_icache unlock_icache
iunlock p = do
  s ← fetch
  if not (unlockable p (s.inode p)) then (λ _. panic "iunlock") else (do
    lock_icache
    write_inode p (λ ip. record ip { busy = false })
    wakeup_inode p
    unlock_icache)
