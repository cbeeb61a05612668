-- ===== src/Inode/Lock.antt =====
-- ilock of fs.c. `elsewhere i` is what other processes do in the sleep of round i.
pub mod Copies
pub mod Trip
use cs.Prelude.{ℕ, zero, suc, ◌+◌, ◌*◌, Bool, true, false, ◌||◌, ◌==◌, ltb, if◌then◌else◌}
use cs.Prelude.Run.{Cmd, panic, out_of_fuel, pure, fetch, modify, ◌>>=◌, ◌>>◌}
use cs.Bytes.{Memory, word_at}
use cs.Proc.Table.{Ptr, null, not_positive}
use cs.Inode.{Inode, FileSystem, lock_icache, unlock_icache, read_inode, write_inode}
use cs.Inode.Dinode.{ndirect, iblock, dinode, half_at}

-- sleep(ip, &icache.lock).
abbrev pub sleep_icache : (FileSystem → FileSystem) → FileSystem → FileSystem
sleep_icache f s = record (f s) { held = s.held }

-- The wait for I_BUSY, at most `k` rounds.
unfoldable pub wait_idle :
    (ℕ → FileSystem → FileSystem) → (k i : ℕ) → Ptr → Cmd FileSystem (Unit {0})
wait_idle elsewhere zero i p = λ _. out_of_fuel
wait_idle elsewhere (suc k) i p = do
  ip ← read_inode p
  if ip.busy
      then (do modify (sleep_icache (elsewhere i)); wait_idle elsewhere k (i + 1) p)
      else pure tt

unfoldable pub load_dinode : Memory → ℕ → Inode → Inode
load_dinode m a ip = record ip {
  type_ = half_at m a;
  major = half_at m (a + 2);
  minor = half_at m (a + 4);
  nlink = half_at m (a + 6);
  size = word_at m (a + 8);
  addrs = λ i. if ltb i (ndirect + 1) then word_at m (a + 12 + 4 * i) else ip.addrs i;
  valid = true;
}

-- What ilock does with an inode that is not valid.
unfoldable pub load_inode : Ptr → Cmd FileSystem (Unit {0})
load_inode p = do
  old ← read_inode p
  s ← fetch
  write_inode p (load_dinode (s.fs.cache (iblock s old.inum)) (dinode old.inum))
  ip ← read_inode p
  if ip.type_ == 0 then (λ _. panic "ilock: no type") else pure tt

unfoldable pub ilock : (ℕ → FileSystem → FileSystem) → (k : ℕ) → Ptr → Cmd FileSystem (Unit {0})
unfolding wait_idle load_inode lock_icache unlock_icache
ilock elsewhere k p = do
  s ← fetch
  if (p == null) || not_positive (s.inode p).ref then (λ _. panic "ilock") else (do
    lock_icache
    wait_idle elsewhere k 0 p
    write_inode p (λ ip. record ip { busy = true })
    unlock_icache
    ip ← read_inode p
    if ip.valid then pure tt else load_inode p)
