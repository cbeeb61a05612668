-- ===== src/Inode/Dinode.antt =====
-- The inodes of fs.c on the disk: struct dinode, iupdate and ialloc. A short is two bytes and a uint
-- four, the lowest first.
pub mod First
use cs.Prelude.{ℕ, zero, suc, ◌+◌, ◌-◌, ◌*◌, ◌/◌, ◌%◌, ◌==◌, if◌then◌else◌}
use cs.Prelude.Run.{Cmd, panic, fetch, ◌>>=◌, ◌>>◌}
use cs.Bytes.{Memory, poke, poke_word, memset}
use cs.Proc.Table.{Ptr}
use cs.Fs.{write_logged}
use cs.Inode.{Inode, FileSystem, read_inode, on_disk, iget}

abbrev pub ndirect : ℕ
ndirect = 12

-- sizeof(struct dinode), and the inodes in a block.
abbrev pub dinode_size : ℕ
dinode_size = 64

abbrev pub ipb : ℕ
ipb = 8

abbrev pub iblock : FileSystem → ℕ → ℕ
iblock s inum = inum / ipb + s.inodestart

-- `(struct dinode*)bp->data + inum%IPB`.
abbrev pub dinode : ℕ → ℕ
dinode inum = inum % ipb * dinode_size

abbrev pub half_at : Memory → ℕ → ℕ
half_at m a = m a + m (a + 1) * 256

abbrev pub poke_half : Memory → ℕ → ℕ → Memory
poke_half m a w = poke (poke m a (w % 256)) (a + 1) (w / 256 % 256)

-- The words of `addrs` from index i on, k of them, moved to the address a.
unfoldable pub store_addrs : (k i : ℕ) → (addrs : ℕ → ℕ) → (a : ℕ) → Memory → Memory
store_addrs zero i addrs a m = m
store_addrs (suc k) i addrs a m = store_addrs k (i + 1) addrs a (poke_word m (a + 4 * i) (addrs i))

unfoldable pub store_dinode : Inode → ℕ → Memory → Memory
unfolding store_addrs
store_dinode ip a m =
    let types = poke_half (poke_half m a ip.type_) (a + 2) ip.major in
    let links = poke_half (poke_half types (a + 4) ip.minor) (a + 6) ip.nlink in
    store_addrs (ndirect + 1) 0 ip.addrs (a + 12) (poke_word links (a + 8) ip.size)

unfoldable pub iupdate : Ptr → Cmd FileSystem (Unit {0})
unfolding store_dinode
iupdate p = do
  ip ← read_inode p
  s ← fetch
  let b = iblock s ip.inum
  on_disk (write_logged b (store_dinode ip (dinode ip.inum) (s.fs.cache b)))

-- The loop of ialloc from `inum` on, `k` rounds.
unfoldable pub ialloc_loop : (dev type_ k inum : ℕ) → Cmd FileSystem Ptr
ialloc_loop dev type_ zero inum = λ _. panic "ialloc: no inodes"
ialloc_loop dev type_ (suc k) inum = do
  s ← fetch
  let b = iblock s inum
  let a = dinode inum
  if half_at (s.fs.cache b) a == 0
      then (do
        on_disk (write_logged b (poke_half (memset a 0 dinode_size (s.fs.cache b)) a type_))
        iget dev inum)
      else ialloc_loop dev type_ k (inum + 1)

unfoldable pub ialloc : (dev type_ : ℕ) → Cmd FileSystem Ptr
unfolding ialloc_loop
ialloc dev type_ = do s ← fetch; ialloc_loop dev type_ (s.ninodes - 1) 1
