-- ===== src/Inode/Content.antt =====
-- The content of an inode in fs.c: stati, readi and writei. `dst` and `src` are the memory that the data
-- go to and come from, at the addresses `d` and `c`; memory and the data of a block do not overlap.
pub mod Between
pub mod Read
pub mod Write
pub mod Trip
use cs.Prelude.{
  ℕ, zero, suc, ◌+◌, ◌-◌, ◌*◌, ◌/◌, ◌%◌, ◌^◌, Bool, ◌||◌, ◌&&◌, not, ◌==◌, ltb, leb, if◌then◌else◌,
  Option, none, some,
}
use cs.Prelude.Int.{ℤ, negsuc, to_int}
use cs.Prelude.Run.{Cmd, out_of_fuel, pure, fetch, ◌>>=◌, ◌>>◌}
use cs.Bytes.{Memory, poke}
use cs.Proc.Table.{Ptr, add32}
use cs.Fs.{Fs, bsize, write_logged}
use cs.Inode.{Inode, FileSystem, read_inode, write_inode, on_disk}
use cs.Inode.Dinode.{ndirect, iupdate}
use cs.Inode.Blocks.{nindirect, bmap}

abbrev pub t_dir : ℕ
t_dir = 1

abbrev pub t_dev : ℕ
t_dev = 3

abbrev pub ndev : ℕ
ndev = 10

-- MAXFILE*BSIZE.
abbrev pub max_size : ℕ
max_size = (ndirect + nindirect) * bsize

-- struct stat.
pub record Stat : Type 0 where
  pub type_ : ℕ
  pub dev : ℕ
  pub ino : ℕ
  pub nlink : ℕ
  pub size : ℕ

unfoldable pub stati : Inode → Stat
stati ip = record {
  type_ = ip.type_;
  dev = ip.dev;
  ino = ip.inum;
  nlink = ip.nlink;
  size = ip.size;
}

-- devsw, which the drivers fill: the functions of a device, or null.
pub record Devices : Type 0 where
  pub read : ℕ → Option (Ptr → (dst : Memory) → (d n : ℕ) → Cmd FileSystem (ℤ × Memory))
  pub write : ℕ → Option (Ptr → (src : Memory) → (c n : ℕ) → Cmd FileSystem ℤ)

-- `major < 0 || major >= NDEV` of the short.
abbrev pub no_device : ℕ → Bool
no_device major = leb (2 ^ 15) major || leb ndev major

unfoldable pub read_device :
    Option (Ptr → Memory → ℕ → ℕ → Cmd FileSystem (ℤ × Memory))
    → (major : ℕ) → Ptr
    → (dst : Memory) → (d n : ℕ) → Cmd FileSystem (ℤ × Memory)
read_device none major p dst d n = pure (negsuc 0, dst)
read_device (some f) major p dst d n = if no_device major then pure (negsuc 0, dst) else f p dst d n

unfoldable pub write_device :
    Option (Ptr → Memory → ℕ → ℕ → Cmd FileSystem ℤ)
    → (major : ℕ) → Ptr
    → (src : Memory) → (c n : ℕ) → Cmd FileSystem ℤ
write_device none major p src c n = pure (negsuc 0)
write_device (some f) major p src c n = if no_device major then pure (negsuc 0) else f p src c n

-- memmove between two arrays.
unfoldable pub copy_between : (n d c : ℕ) → (src dst : Memory) → Memory
copy_between zero d c src dst = dst
copy_between (suc n) d c src dst = copy_between n (d + 1) (c + 1) src (poke dst d (src c))

-- min(n - tot, BSIZE - off%BSIZE).
abbrev pub chunk_size : (tot n off : ℕ) → ℕ
chunk_size tot n off = if ltb (n - tot) (bsize - off % bsize) then n - tot else bsize - off % bsize

-- The loop of readi, at most `k` rounds. `off + n` was found not to wrap around.
unfoldable pub readi_loop : Ptr → (k tot n off d : ℕ) → (dst : Memory) → Cmd FileSystem Memory
readi_loop p zero tot n off d dst = λ _. out_of_fuel
readi_loop p (suc k) tot n off d dst = if not (ltb tot n) then pure dst else (do
  b ← bmap p (off / bsize)
  s ← fetch
  let m = chunk_size tot n off
  readi_loop p k (tot + m) n (off + m) (d + m) (copy_between m d (off % bsize) (s.fs.cache b) dst))

-- readi for an inode that is not a device.
unfoldable pub read_data :
    Ptr → Inode → (dst : Memory) → (d off n : ℕ) → Cmd FileSystem (ℤ × Memory)
read_data p ip dst d off n =
    if ltb ip.size off || ltb (add32 off n) off then pure (negsuc 0, dst) else (do
      let n' = if ltb ip.size (add32 off n) then ip.size - off else n
      dst' ← readi_loop p (n' + 1) 0 n' off d dst
      pure (to_int n', dst'))

unfoldable pub readi : Devices → Ptr → (dst : Memory) → (d off n : ℕ) → Cmd FileSystem (ℤ × Memory)
unfolding read_data read_device
readi devs p dst d off n = do
  ip ← read_inode p
  if ip.type_ == t_dev
      then read_device (devs.read ip.major) ip.major p dst d n
      else read_data p ip dst d off n

-- The loop of writei, which ends with the offset behind the data.
unfoldable pub writei_loop : Ptr → (k tot n off : ℕ) → (src : Memory) → (c : ℕ) → Cmd FileSystem ℕ
writei_loop p zero tot n off src c = λ _. out_of_fuel
writei_loop p (suc k) tot n off src c = if not (ltb tot n) then pure off else (do
  b ← bmap p (off / bsize)
  s ← fetch
  let m = chunk_size tot n off
  on_disk (write_logged b (copy_between m (off % bsize) c src (s.fs.cache b)))
  writei_loop p k (tot + m) n (off + m) src (c + m))

-- The end of writei: a file that has grown.
unfoldable pub grow : Ptr → (n off : ℕ) → Cmd FileSystem (Unit {0})
grow p n off = do
  ip ← read_inode p
  if ltb 0 n && ltb ip.size off
      then (do write_inode p (λ i. record i { size = off }); iupdate p)
      else pure tt

unfoldable pub write_data : Ptr → Inode → (src : Memory) → (c off n : ℕ) → Cmd FileSystem ℤ
write_data p ip src c off n =
    if ltb ip.size off || ltb (add32 off n) off
    then pure (negsuc 0)
    else if ltb max_size (add32 off n)
    then pure (negsuc 0)
    else (do off' ← writei_loop p (n + 1) 0 n off src c; grow p n off'; pure (to_int n))

unfoldable pub writei : Devices → Ptr → (src : Memory) → (c off n : ℕ) → Cmd FileSystem ℤ
unfolding write_data write_device
writei devs p src c off n = do
  ip ← read_inode p
  if ip.type_ == t_dev
      then write_device (devs.write ip.major) ip.major p src c n
      else write_data p ip src c off n
