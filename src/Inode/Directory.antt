-- ===== src/Inode/Directory.antt =====
-- Directories of fs.c: namecmp, dirlookup and dirlink. `mem` is the kernel's memory: the name is at the
-- address `name` and the local `de`, a struct dirent, at the address `de`.
pub mod First
use cs.Prelude.{
  ℕ, zero, suc, ◌+◌, ◌-◌, ◌/◌, Bool, true, false, ◌&&◌, not, ◌==◌, ltb, leb, if◌then◌else◌, Option,
  none, some,
}
use cs.Prelude.Int.{ℤ, pos, negsuc, is_nonzero}
use cs.Prelude.Run.{Cmd, panic, out_of_fuel, pure, fetch, ◌>>=◌, ◌>>◌}
use cs.Bytes.{Memory, poke, strncmp, strncpy}
use cs.Proc.Table.{Ptr, null}
use cs.Inode.{Inode, FileSystem, read_inode, iget}
use cs.Inode.Dinode.{half_at, poke_half}
use cs.Inode.Put.{iput}
use cs.Inode.Content.{Devices, t_dir, readi, writei}

abbrev pub dirsiz : ℕ
dirsiz = 14

-- sizeof(struct dirent): a ushort and the name.
abbrev pub dirent_size : ℕ
dirent_size = 16

unfoldable pub namecmp : Memory → (s t : ℕ) → ℤ
namecmp mem s t = strncmp mem s t dirsiz

abbrev pub is_count : ℕ → ℤ → Bool
is_count n (pos m) = m == n
is_count n (negsuc _) = false

-- The entry read at `de` is in use and has the name.
abbrev pub matches : Memory → (name de : ℕ) → Bool
matches mem name de = not (half_at mem de == 0) && not (is_nonzero (namecmp mem name (de + 2)))

-- What dirlookup returns, the offset that it stores at poff, and the memory.
pub record Lookup : Type 0 where
  pub ip : Ptr
  pub poff : Option ℕ
  pub memory : Memory

unfoldable pub found : (dev off inum : ℕ) → Memory → Cmd FileSystem Lookup
found dev off inum mem = do
  q ← iget dev inum
  pure (record { ip = q; poff = some off; memory = mem })

-- The loop of dirlookup from `off` on, at most `k` rounds.
unfoldable pub lookup_loop : Devices → Ptr → (name de k off : ℕ) → Memory → Cmd FileSystem Lookup
lookup_loop devs p name de zero off mem = λ _. out_of_fuel
lookup_loop devs p name de (suc k) off mem = do
  dp ← read_inode p
  if not (ltb off dp.size) then pure (record { ip = null; poff = none; memory = mem }) else (do
    r ← readi devs p mem de off dirent_size
    if not (is_count dirent_size r.0)
        then (λ _. panic "dirlink read")
        else if matches r.1 name de
        then found dp.dev off (half_at r.1 de) r.1
        else lookup_loop devs p name de k (off + dirent_size) r.1)

unfoldable pub dirlookup : Devices → Ptr → (name de : ℕ) → Memory → Cmd FileSystem Lookup
dirlookup devs p name de mem = do
  dp ← read_inode p
  if not (dp.type_ == t_dir)
      then (λ _. panic "dirlookup not DIR")
      else lookup_loop devs p name de (dp.size / dirent_size + 2) 0 mem

-- The loop of dirlink for an empty entry: its offset, or the end of the directory.
unfoldable pub empty_loop : Devices → Ptr → (de k off : ℕ) → Memory → Cmd FileSystem (ℕ × Memory)
empty_loop devs p de zero off mem = λ _. out_of_fuel
empty_loop devs p de (suc k) off mem = do
  dp ← read_inode p
  if not (ltb off dp.size) then pure (off, mem) else (do
    r ← readi devs p mem de off dirent_size
    if not (is_count dirent_size r.0)
        then (λ _. panic "dirlink read")
        else if half_at r.1 de == 0
        then pure (off, r.1)
        else empty_loop devs p de k (off + dirent_size) r.1)

-- strncpy(de.name, name, DIRSIZ) and `de.inum = inum`.
abbrev pub name_entry : (name de inum : ℕ) → Memory → Memory
name_entry name de inum mem =
    poke_half
      (λ a.
        if leb (de + 2) a && ltb a (de + dirent_size)
        then strncpy (λ j. mem (name + j)) dirsiz (λ j. mem (de + 2 + j)) (a - (de + 2))
        else mem a)
      de inum

unfoldable pub dirlink : Devices → Ptr → (name de inum : ℕ) → Memory → Cmd FileSystem ℤ
dirlink devs p name de inum mem = do
  r ← dirlookup devs p name de mem
  if not (r.ip == null) then (do iput r.ip; pure (negsuc 0)) else (do
    dp ← read_inode p
    e ← empty_loop devs p de (dp.size / dirent_size + 2) 0 r.memory
    n ← writei devs p (name_entry name de inum e.1) de e.0 dirent_size
    if not (is_count dirent_size n) then (λ _. panic "dirlink") else pure (pos 0))
