-- ===== src/Inode/Blocks.antt =====
-- The blocks of an inode in fs.c: bmap and itrunc. The entries of an indirect block are words of its
-- data.
pub mod Steady
use cs.Prelude.{ℕ, zero, suc, ◌+◌, ◌-◌, ◌*◌, ◌==◌, ltb, if◌then◌else◌}
use cs.Prelude.Run.{Cmd, panic, pure, fetch, ◌>>=◌, ◌>>◌}
use cs.Bytes.{poke_word, word_at}
use cs.Proc.Table.{Ptr}
use cs.Fs.{Fs, write_logged, balloc, bfree}
use cs.Inode.{Inode, FileSystem, read_inode, write_inode, on_disk}
use cs.Inode.Dinode.{ndirect, iupdate}

abbrev pub nindirect : ℕ
nindirect = 128

abbrev pub put_addr : ℕ → ℕ → Inode → Inode
put_addr i a ip = record ip { addrs = λ j. if j == i then a else ip.addrs j }

-- ip->addrs[i], with a block allocated if there is none.
unfoldable pub slot : Ptr → ℕ → Cmd FileSystem ℕ
slot p i = do
  ip ← read_inode p
  if ip.addrs i == 0
      then (do a ← on_disk balloc; write_inode p (put_addr i a); pure a)
      else pure (ip.addrs i)

-- a[bn] in the indirect block `b`, with a block allocated if there is none.
unfoldable pub indirect_entry : (b bn : ℕ) → Cmd FileSystem ℕ
indirect_entry b bn = do
  s ← fetch
  if word_at (s.fs.cache b) (4 * bn) == 0
      then (do
        a ← on_disk balloc
        s' ← fetch
        on_disk (write_logged b (poke_word (s'.fs.cache b) (4 * bn) a))
        pure a)
      else pure (word_at (s.fs.cache b) (4 * bn))

unfoldable pub bmap : Ptr → ℕ → Cmd FileSystem ℕ
bmap p bn =
    if ltb bn ndirect
    then slot p bn
    else if ltb (bn - ndirect) nindirect
    then (do b ← slot p ndirect; indirect_entry b (bn - ndirect))
    else (λ _. panic "bmap: out of range")

-- The loop of itrunc over the direct blocks from `i` on, `k` of them.
unfoldable pub free_direct : Ptr → (k i : ℕ) → Cmd FileSystem (Unit {0})
free_direct p zero i = pure tt
free_direct p (suc k) i = do
  ip ← read_inode p
  if ip.addrs i == 0
      then free_direct p k (i + 1)
      else (do on_disk (bfree (ip.addrs i)); write_inode p (put_addr i 0); free_direct p k (i + 1))

-- The loop over the entries of the indirect block `b` from `j` on, `k` of them.
unfoldable pub free_entries : (b k j : ℕ) → Cmd FileSystem (Unit {0})
free_entries b zero j = pure tt
free_entries b (suc k) j = do
  s ← fetch
  let a = word_at (s.fs.cache b) (4 * j)
  if a == 0 then free_entries b k (j + 1) else (do on_disk (bfree a); free_entries b k (j + 1))

unfoldable pub free_indirect : Ptr → Cmd FileSystem (Unit {0})
unfolding free_entries
free_indirect p = do
  ip ← read_inode p
  let b = ip.addrs ndirect
  if b == 0
      then pure tt
      else (do free_entries b nindirect 0; on_disk (bfree b); write_inode p (put_addr ndirect 0))

unfoldable pub itrunc : Ptr → Cmd FileSystem (Unit {0})
itrunc p = do
  free_direct p ndirect 0
  free_indirect p
  write_inode p (λ ip. record ip { size = 0 })
  iupdate p
