-- ===== src/Inode/Path.antt =====
-- Paths of fs.c: skipelem, namex, namei and nameiparent. A path is the list of its bytes before the final
-- 0, so that a pointer into it is one of its ends; the name is in the kernel's memory at `name`.
pub mod Name
pub mod Elements
pub mod Rounds
pub mod Walk
use cs.Prelude.{
  ℕ, zero, suc, ◌+◌, Bool, true, false, ◌&&◌, not, List, [], ◌∷◌, Option, none, some, ◌==◌, ltb,
  if◌then◌else◌, length,
}
use cs.Prelude.Run.{Cmd, panic, out_of_fuel, pure, fetch, ◌>>=◌, ◌>>◌}
use cs.Bytes.{Memory, poke}
use cs.Proc.Table.{Ptr, null}
use cs.Inode.{Inode, FileSystem, read_inode, iget, idup, iunlock}
use cs.Inode.Lock.{ilock}
use cs.Inode.Put.{iput, iunlockput}
use cs.Inode.Content.{Devices, t_dir}
use cs.Inode.Directory.{dirsiz, Lookup, dirlookup}

abbrev pub slash : ℕ
slash = 47

-- `while(*path == '/') path++;`
unfoldable pub skip_slashes : List ℕ → List ℕ
skip_slashes [] = []
skip_slashes (c ∷ path) = let rest = skip_slashes path in if c == slash then rest else c ∷ path

-- `while(*path != '/' && *path != 0) path++;`: what it goes over, and what is left.
unfoldable pub element : List ℕ → List ℕ
element [] = []
element (c ∷ path) = let rest = element path in if c == slash then [] else c ∷ rest

unfoldable pub past_element : List ℕ → List ℕ
past_element [] = []
past_element (c ∷ path) = let rest = past_element path in if c == slash then c ∷ path else rest

-- At most `n` of the bytes, written from `a` on.
unfoldable pub put_bytes : (n : ℕ) → List ℕ → (a : ℕ) → Memory → Memory
put_bytes zero cs a m = m
put_bytes (suc n) [] a m = m
put_bytes (suc n) (c ∷ cs) a m = put_bytes n cs (a + 1) (poke m a c)

unfoldable pub put_name : List ℕ → (name : ℕ) → Memory → Memory
unfolding put_bytes
put_name s name m =
    if not (ltb (length s) dirsiz)
    then put_bytes dirsiz s name m
    else poke (put_bytes (length s) s name m) (name + length s) 0

-- skipelem at a path without leading slashes.
unfoldable pub take_element : List ℕ → (name : ℕ) → Memory → Option (List ℕ × Memory)
unfolding skip_slashes element past_element put_name
take_element [] name m = none
take_element (c ∷ path) name m =
    some (skip_slashes (past_element (c ∷ path)), put_name (element (c ∷ path)) name m)

unfoldable pub skipelem : List ℕ → (name : ℕ) → Memory → Option (List ℕ × Memory)
unfolding take_element
skipelem path name m = take_element (skip_slashes path) name m

abbrev pub is_end : List ℕ → Bool
is_end [] = true
is_end (_ ∷ _) = false

-- What namex needs: the devices, the sleeps of ilock and their number, and the addresses of the name and
-- of dirlookup's local.
pub record Namex : Type 0 where
  pub devs : Devices
  pub elsewhere : ℕ → FileSystem → FileSystem
  pub rounds : ℕ
  pub name : ℕ
  pub de : ℕ

-- A round of the loop of namex at the inode `ip`, with the path behind the element and what the later
-- rounds do: the inode or null, and the memory.
unfoldable pub enter :
    Namex
    → (parent : Bool) → (later : Ptr → Memory → Cmd FileSystem (Ptr × Memory)) → Ptr
    → (rest : List ℕ) → Memory
    → Cmd FileSystem (Ptr × Memory)
enter ctx parent later ip rest mem = do
  ilock ctx.elsewhere ctx.rounds ip
  i ← read_inode ip
  if not (i.type_ == t_dir)
      then (do iunlockput ip; pure (null, mem))
      else if parent && is_end rest
      then (do iunlock ip; pure (ip, mem))
      else (do
        r ← dirlookup ctx.devs ip ctx.name ctx.de mem
        iunlockput ip
        if r.ip == null then pure (null, r.memory) else later r.ip r.memory)

-- What comes after the loop.
unfoldable pub arrive : (parent : Bool) → Ptr → Memory → Cmd FileSystem (Ptr × Memory)
arrive parent ip mem = if parent then (do iput ip; pure (null, mem)) else pure (ip, mem)

-- A round with what skipelem returns.
abbrev pub namex_on :
    Namex
    → (parent : Bool) → (next : List ℕ → Ptr → Memory → Cmd FileSystem (Ptr × Memory)) → Ptr
    → Memory
    → Option (List ℕ × Memory)
    → Cmd FileSystem (Ptr × Memory)
namex_on ctx parent next ip mem none = arrive parent ip mem
namex_on ctx parent next ip mem (some (rest, mem')) = enter ctx parent (next rest) ip rest mem'

-- The loop, at most `k` rounds.
unfoldable pub namex_loop :
    Namex → (parent : Bool) → (k : ℕ) → Ptr → List ℕ → Memory → Cmd FileSystem (Ptr × Memory)
namex_loop ctx parent zero ip path mem = λ _. out_of_fuel
namex_loop ctx parent (suc k) ip path mem =
    namex_on ctx parent (λ rest q m. namex_loop ctx parent k q rest m) ip mem
      (skipelem path ctx.name mem)

abbrev pub starts_at_root : List ℕ → Bool
starts_at_root [] = false
starts_at_root (c ∷ _) = c == slash

abbrev pub rootdev : ℕ
rootdev = 1

abbrev pub rootino : ℕ
rootino = 1

unfoldable pub namex :
    Namex → (cwd : Ptr) → (parent : Bool) → List ℕ → Memory → Cmd FileSystem (Ptr × Memory)
unfolding namex_loop
namex ctx cwd parent path mem = do
  ip ← if starts_at_root path then iget rootdev rootino else idup cwd
  namex_loop ctx parent (length path + 1) ip path mem

unfoldable pub namei : Namex → (cwd : Ptr) → List ℕ → Memory → Cmd FileSystem Ptr
unfolding namex
namei ctx cwd path mem = do r ← namex ctx cwd false path mem; pure r.0

unfoldable pub nameiparent : Namex → (cwd : Ptr) → List ℕ → Memory → Cmd FileSystem (Ptr × Memory)
unfolding namex
nameiparent ctx cwd path mem = namex ctx cwd true path mem
