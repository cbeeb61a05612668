-- ===== src/Inode/Directory/First.antt =====
-- dirlookup finds the first entry with the name.
use cs.Prelude.{
  ℕ, zero, suc, ◌+◌, ◌*◌, ◌/◌, ◌%◌, ◌≤◌, ◌<◌, ◌≡◌, refl, ◌∙◌, ap, ◌≢◌, ◌⊎◌, inl, inr, subst,
  fun_ext, true, false, Bool, not, ◌&&◌, sym, ltb, arith, ◌==◌, ==_ne, Bool-cases, none, some,
}
use cs.Prelude.Int.{ℤ, pos, negsuc, is_nonzero}
use cs.Prelude.Run.{Run, Yields, yields, ok, panic, fault, out_of_fuel, pure, and_then}
use cs.Bytes.{Memory, strncmp}
use cs.Bytes.Compare.{same_text, strncmp_zero}
use cs.Proc.Table.{Ptr, null}
use cs.Inode.{FileSystem, iget}
use cs.Inode.Dinode.{half_at}
use cs.Inode.Content.{Devices, t_dir, max_size, readi}
use cs.Inode.Content.Between.{spliced, content}
use cs.Inode.Content.Read.{HasBlocks, available, Reads, readi-content}
use cs.Inode.Directory.{
  dirsiz, namecmp, dirent_size, matches, Lookup, found, lookup_loop, dirlookup,
}

-- The memory with the entry at the offset `off` read into `de`.
abbrev pub with_entry : FileSystem → Ptr → (de off : ℕ) → Memory → Memory
with_entry s p de off mem = spliced dirent_size de off (content s p) mem

-- A directory that can be read: whole entries, in blocks that are there.
pub record IsDirectory (s : FileSystem) (p : Ptr) : Type 0 where
  pub not_null : p ≢ null
  pub kind : (s.inode p).type_ ≡ t_dir
  pub whole : (s.inode p).size % dirent_size ≡ 0
  pub size_max : (s.inode p).size ≤ max_size
  pub blocks : HasBlocks s p (s.inode p).size

readi-dirent :
    (devs : Devices) (s : FileSystem) (p : Ptr) (mem : Memory) (de off : ℕ)
    → IsDirectory s p
    → off % dirent_size ≡ 0
    → off < (s.inode p).size
    → readi devs p mem de off dirent_size s ≡ ok (pos dirent_size, with_entry s p de off mem) s
readi-dirent devs s p mem de off dir aligned inside = collect (
    readi-content devs s p mem de off dirent_size dir.not_null
      (λ e. absurd (omega (arith, e, dir.kind))) (omega (arith, dir.size_max)) (omega arith)
      dir.size_max dir.blocks)
  where
    count : available (s.inode p).size off dirent_size ≡ dirent_size
    count = ground (arith, dir.whole)

    collect :
        {r : Run FileSystem (ℤ × Memory)}
        → Yields (Reads s p mem de off dirent_size) r
        → r ≡ ok (pos dirent_size, with_entry s p de off mem) s
    collect (yields (same, inl (inl below, _))) = absurd (omega arith)
    collect (yields (same, inl (inr wraps, _))) = absurd (omega (arith, dir.size_max))
    collect (yields {a = r} (same, inr (_, number, bytes))) =
        cc (same, number ∙ ap pos count, memory)
      where
        memory : r.1 ≡ with_entry s p de off mem
        memory = fun_ext λ a. bytes a ∙ ap (λ l. spliced l de off (content s p) mem a) count

-- The memory with an entry read, for each offset.
abbrev pub Entries : Type 0
Entries = ℕ → Memory

abbrev pub entries : FileSystem → Ptr → (de : ℕ) → Memory → Entries
entries s p de mem off = with_entry s p de off mem

entries-entries :
    (s : FileSystem) (p : Ptr) (de off : ℕ) (mem : Memory)
    → entries s p de (with_entry s p de off mem) ≡ entries s p de mem
entries-entries s p de off mem = fun_ext λ o. fun_ext λ a. ground arith

-- The entry is in use, and its name and the other are the same text of at most DIRSIZ bytes.
abbrev pub named : Memory → (name de : ℕ) → Bool
named m name de = not (half_at m de == 0) && same_text m name (de + 2) dirsiz

is_nonzero-ne : (z : ℤ) → z ≢ pos 0 → is_nonzero z ≡ true
is_nonzero-ne (pos zero) ne = absurd (ne refl)
is_nonzero-ne (pos (suc n)) ne = refl
is_nonzero-ne (negsuc n) ne = refl

matches-named : (m : Memory) (name de : ℕ) → matches m name de ≡ named m name de
unfolding namecmp
matches-named m name de =
    ap (λ b. not (half_at m de == 0) && b)
      (elim (Bool-cases (same_text m name (de + 2) dirsiz)) [
        | inl same ↦
            let zero' : strncmp m name (de + 2) dirsiz ≡ pos 0 =
              (strncmp_zero dirsiz m name (de + 2)).1 same in
            rw (zero', same) refl
        | inr other ↦
            let differs : is_nonzero (strncmp m name (de + 2) dirsiz) ≡ true =
              is_nonzero-ne _
                (λ e. absurd (cc ((strncmp_zero dirsiz m name (de + 2)).0 e, other))) in
            rw (differs, other) refl
      ])

-- No entry from `lo` up to `hi` matches the name.
abbrev pub NoMatch : Entries → (name de lo hi : ℕ) → Type 0
NoMatch e name de lo hi =
    (o : ℕ) → lo ≤ o → o < hi → o % dirent_size ≡ 0 → named (e o) name de ≡ false

-- The lookup ends as iget does: it has the inode that iget returns, with the offset of the entry, and
-- panics where iget does.
abbrev pub Returns : Run FileSystem Ptr → (off : ℕ) → Memory → Run FileSystem Lookup → Type 0
Returns (ok q t) off m run = run ≡ ok (record { ip = q; poff = some off; memory = m }) t
Returns (panic why) off m run = run ≡ panic why
Returns fault off m run = run ≡ fault
Returns out_of_fuel off m run = run ≡ out_of_fuel

found-Returns :
    (s : FileSystem) (dev off inum : ℕ) (m : Memory)
    → Returns (iget dev inum s) off m (found dev off inum m s)
unfolding found
found-Returns s dev off inum m = ended (iget dev inum s)
  where
    ended :
        (r : Run FileSystem Ptr)
        → Returns r off m (and_then r (λ q. pure (record { ip = q; poff = some off; memory = m })))
    ended (ok q t) = refl
    ended (panic why) = refl
    ended fault = refl
    ended out_of_fuel = refl

-- The first entry from `lo` on that matches is taken, or there is none; nothing changes before iget.
abbrev pub LookupCases :
    FileSystem → Ptr → (name de lo : ℕ) → Entries → Run FileSystem Lookup → Type 0
LookupCases s p name de lo e run =
    (((m : Memory) × (run ≡ ok (record { ip = null; poff = none; memory = m }) s))
      × NoMatch e name de lo (s.inode p).size)
    ⊎ ((o : ℕ) × (lo ≤ o)
        × (o < (s.inode p).size)
        × (o % dirent_size ≡ 0)
        × (named (e o) name de ≡ true)
        × NoMatch e name de lo o
        × Returns (iget (s.inode p).dev (half_at (e o) de) s) o (e o) run)

NoMatch-step :
    (e : Entries) (name de lo hi : ℕ)
    → lo % dirent_size ≡ 0
    → named (e lo) name de ≡ false
    → NoMatch e name de (lo + dirent_size) hi
    → NoMatch e name de lo hi
NoMatch-step e name de lo hi aligned miss rest o a b c = elim (Bool-cases (o == lo)) [
  | inl k ↦ let same : o ≡ lo = ground arith in ap (λ z. named (e z) name de) same ∙ miss
  | inr k ↦ rest o (ground arith) b c
]

LookupCases-step :
    (s : FileSystem) (p : Ptr) (name de lo : ℕ) (e : Entries) (run : Run FileSystem Lookup)
    → lo % dirent_size ≡ 0
    → named (e lo) name de ≡ false
    → LookupCases s p name de (lo + dirent_size) e run
    → LookupCases s p name de lo e run
LookupCases-step s p name de lo e run aligned miss (inl (none_, before)) =
    inl (none_, NoMatch-step e name de lo (s.inode p).size aligned miss before)
LookupCases-step s p name de lo e run aligned miss
      (inr (o, low, high, at_entry, hit, before, same)) =
    inr (o, omega arith, high, at_entry, hit, NoMatch-step e name de lo o aligned miss before, same)

lookup_loop-cases :
    (devs : Devices) (s : FileSystem) (p : Ptr) (name de k off : ℕ) (mem : Memory)
    → IsDirectory s p
    → off % dirent_size ≡ 0
    → off ≤ (s.inode p).size
    → (s.inode p).size < off + dirent_size * k
    → LookupCases s p name de off (entries s p de mem) (lookup_loop devs p name de k off mem s)
unfolding lookup_loop
lookup_loop-cases devs s p name de zero off mem dir aligned le fuel = absurd (omega arith)
lookup_loop-cases devs s p name de (suc k) off mem dir aligned le fuel =
    rw (==_ne p null dir.not_null) (elim (Bool-cases (ltb off (s.inode p).size)) [
      | inr done ↦ rw done (inl ((mem, refl), λ o a b c. absurd (ground arith)))
      | inl more ↦
          let inside : off < (s.inode p).size = ground arith in
          let m = with_entry s p de off mem in
          rw (more, readi-dirent devs s p mem de off dir aligned inside)
            (elim (Bool-cases (matches m name de)) [
              | inl hit ↦ rw hit (
                  inr (
                    off,
                    omega arith,
                    inside,
                    aligned,
                    sym (matches-named m name de) ∙ hit,
                    (λ o a b c. absurd (omega arith)),
                    found-Returns s (s.inode p).dev off (half_at m de) m,
                  ))
              | inr miss ↦ rw miss (
                  LookupCases-step s p name de off (entries s p de mem) _ aligned
                    (sym (matches-named m name de) ∙ miss)
                    (subst
                      (λ e.
                        LookupCases s p name de (off + dirent_size) e
                          (lookup_loop devs p name de k (off + dirent_size) m s))
                      (entries-entries s p de off mem)
                      (lookup_loop-cases devs s p name de k (off + dirent_size) m dir (omega arith)
                        (ground (arith, dir.whole)) (omega arith))))
            ])
    ])

-- dirlookup of a directory that can be read returns null if no entry that is in use has the name, and
-- changes nothing of the file system then; otherwise it ends as iget of the inode of the first such
-- entry: it returns that inode with the entry's offset at poff, or panics where iget does.
pub dirlookup-first :
    (devs : Devices) (s : FileSystem) (p : Ptr) (name de : ℕ) (mem : Memory)
    → IsDirectory s p
    → LookupCases s p name de 0 (entries s p de mem) (dirlookup devs p name de mem s)
unfolding dirlookup
dirlookup-first devs s p name de mem dir =
    rw (==_ne p null dir.not_null, dir.kind)
      (lookup_loop-cases devs s p name de ((s.inode p).size / dirent_size + 2) 0 mem dir refl
        (omega arith) (omega arith))
