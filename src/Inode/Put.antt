-- ===== src/Inode/Put.antt =====
-- iput and iunlockput of fs.c.
pub mod Refs
use cs.Prelude.{Bool, true, false, ◌&&◌, ◌==◌, if◌then◌else◌}
use cs.Prelude.Run.{Cmd, panic, pure, fetch, ◌>>=◌, ◌>>◌}
use cs.Proc.Table.{Ptr, sub32}
use cs.Inode.{
  Inode, FileSystem, lock_icache, unlock_icache, read_inode, write_inode, wakeup_inode, iunlock,
}
use cs.Inode.Dinode.{iupdate}
use cs.Inode.Blocks.{itrunc}

-- The last reference to an inode that no directory has.
abbrev pub unlinked : Inode → Bool
unlinked ip = (ip.ref == 1) && (ip.valid && (ip.nlink == 0))

-- The inode is freed on the disk, with icache.lock given back in between.
unfoldable pub free_inode : Ptr → Cmd FileSystem (Unit {0})
free_inode p = do
  ip ← read_inode p
  if ip.busy then (λ _. panic "iput busy") else (do
    write_inode p (λ ip. record ip { busy = true })
    unlock_icache
    itrunc p
    write_inode p (λ ip. record ip { type_ = 0 })
    iupdate p
    lock_icache
    write_inode p (λ ip. record ip { busy = false; valid = false })
    wakeup_inode p)

unfoldable pub iput : Ptr → Cmd FileSystem (Unit {0})
iput p = do
  lock_icache
  ip ← read_inode p
  if unlinked ip then free_inode p else pure tt
  write_inode p (λ ip. record ip { ref = sub32 ip.ref 1 })
  unlock_icache

unfoldable pub iunlockput : Ptr → Cmd FileSystem (Unit {0})
iunlockput p = do iunlock p; iput p
