-- ===== src/Inode/Content/Trip.antt =====
-- What writei writes, readi reads.
use cs.Prelude.{
  ℕ, ◌+◌, ◌-◌, ◌/◌, ◌%◌, ◌≤◌, ◌<◌, ◌≡◌, refl, ◌∙◌, sym, subst, ap, ◌≢◌, Bool-cases, inl, inr, arith,
  ltb, leb, ◌&&◌, ◌||◌, if◌then◌else◌, true, false, ==_ne, ==_refl, fun_ext,
}
use cs.Prelude.Int.{pos, ℤ}
use cs.Prelude.Run.{Yields, yields, Yields-bind, Yields-mono, ◌>>=◌}
use cs.Bytes.{Memory}
use cs.Proc.Table.{Ptr, null, add32}
use cs.Fs.{bsize}
use cs.Inode.{Inode, FileSystem, put_inode}
use cs.Inode.Dinode.{ndirect, iblock, store_dinode, dinode, iupdate}
use cs.Inode.Content.{Devices, t_dev, max_size, grow, write_data, writei, readi}
use cs.Inode.Content.Between.{spliced, block_of, content}
use cs.Inode.Content.Read.{HasBlocks, available, Reads, readi-content}
use cs.Inode.Content.Write.{
  IsLaidOut, IsSame, indirect, stored, stored-IsSame, IsLaidOut-IsSame, writei_loop-content,
}

-- The file at `p` has a size and else the same content and blocks.
pub record Resized (t u : FileSystem) (p : Ptr) (len size : ℕ) : Type 0 where
  pub new_size : (u.inode p).size ≡ len
  pub same_type : (u.inode p).type_ ≡ (t.inode p).type_
  pub blocks_kept : block_of u p ≡ block_of t p
  pub bytes_kept : (i : ℕ) → i < size → content u p i ≡ content t p i

abbrev pub grown : (len n off : ℕ) → ℕ
grown len n off = if ltb 0 n && ltb len off then off else len

-- iupdate writes a block that is none of the file's.
iupdate-IsSame :
    (w : FileSystem) (p : Ptr) (size : ℕ)
    → p ≢ null
    → IsLaidOut (block_of w p) (indirect w p) (iblock w (w.inode p).inum) size
    → Yields
        (λ _ u. IsSame w u p × ((i : ℕ) → i < size → content u p i ≡ content w p i))
        (iupdate p w)
unfolding iupdate
iupdate-IsSame w p size np laid = rw (==_ne p null np) (yields (same, bytes))
  where
    b : ℕ
    b = iblock w (w.inode p).inum

    u : FileSystem
    u = stored w b (store_dinode (w.inode p) (dinode (w.inode p).inum) (w.fs.cache b))

    same : IsSame w u p
    same = stored-IsSame w p b _ (λ e. laid.indirect_not_inode (sym e))

    bytes : (i : ℕ) → i < size → content u p i ≡ content w p i
    bytes i h =
        ap (λ (f : ℕ → ℕ). u.fs.cache (f (i / bsize)) (i % bsize)) same.same_blocks
        ∙ rw (==_ne (block_of w p (i / bsize)) b (laid.not_inode i h)) refl

grow-Resized :
    (t : FileSystem) (p : Ptr) (n off size : ℕ)
    → p ≢ null
    → IsLaidOut (block_of t p) (indirect t p) (iblock t (t.inode p).inum) size
    → Yields (λ _ u. Resized t u p (grown (t.inode p).size n off) size) (grow p n off t)
unfolding grow
grow-Resized t p n off size np laid =
    rw (==_ne p null np) (elim (Bool-cases (ltb 0 n && ltb (t.inode p).size off)) [
      | inr same ↦ rw same (
          yields (record {
            new_size = refl;
            same_type = refl;
            blocks_kept = refl;
            bytes_kept = λ i h. refl;
          }))
      | inl more ↦
          rw (more, ==_ne p null np)
            (Yields-mono (iupdate-IsSame w p size np laid') λ _ u (same, bytes). record {
              new_size = ap (λ (f : Ptr → Inode). (f p).size) same.same_inode ∙ rw (==_refl p) refl;
              same_type =
                  ap (λ (f : Ptr → Inode). (f p).type_) same.same_inode ∙ rw (==_refl p) refl;
              blocks_kept = same.same_blocks ∙ here;
              bytes_kept = λ i h.
                  bytes i h ∙ ap (λ (f : ℕ → ℕ). t.fs.cache (f (i / bsize)) (i % bsize)) here;
            })
    ])
  where
    w : FileSystem
    w = record t { inode = put_inode t.inode p (record (t.inode p) { size = off }) }

    here : block_of w p ≡ block_of t p
    here = fun_ext λ bn. rw (==_refl p) refl

    at_p : w.inode p ≡ record (t.inode p) { size = off }
    at_p = rw (==_refl p) refl

    laid' : IsLaidOut (block_of w p) (indirect w p) (iblock w (w.inode p).inum) size
    laid' =
        subst (λ f. IsLaidOut f (indirect w p) (iblock w (w.inode p).inum) size) (sym here)
          (subst (λ (z : Inode). IsLaidOut (block_of t p) (z.addrs ndirect) (iblock t z.inum) size)
            (sym at_p) laid)

-- The file at `p` has new data at an offset.
abbrev pub Written : (s t : FileSystem) → Ptr → (n off c : ℕ) → Memory → (size : ℕ) → Type 0
Written s t p n off c src size =
    ((t.inode p).size ≡ grown (s.inode p).size n (off + n))
    × ((t.inode p).type_ ≡ (s.inode p).type_)
    × (block_of t p ≡ block_of s p)
    × ((i : ℕ) → i < size → content t p i ≡ spliced n off c src (content s p) i)

module _ (devs : Devices) (s : FileSystem) (p : Ptr) (src : Memory) (c off n size : ℕ)
    (np : p ≢ null) (file : (s.inode p).type_ ≢ t_dev) (low : off ≤ (s.inode p).size)
    (end : off + n ≤ size) (inside : (s.inode p).size ≤ size) (max : size ≤ max_size)
    (laid : IsLaidOut (block_of s p) (indirect s p) (iblock s (s.inode p).inum) size) where
  -- writei of a file whose blocks are there, at an offset up to its end, writes all the data: the
  -- content has them at the offset and is else as it was, and the size is that of the longer file.
  pub writei-Written :
      Yields (λ r t. (r ≡ pos n) × Written s t p n off c src size) (writei devs p src c off n s)
  unfolding writei write_data
  writei-Written =
      let total : add32 off n ≡ off + n = omega arith in
      let ok1 : (ltb (s.inode p).size off || ltb (off + n) off) ≡ false = ground arith in
      let ok2 : ltb max_size (off + n) ≡ false = ground arith in
      rw (==_ne p null np, ==_ne (s.inode p).type_ t_dev file, total, ok1, ok2)
        (Yields-bind
          (writei_loop-content s p (iblock s (s.inode p).inum) size (n + 1) 0 n off c src laid np
            (omega arith) (omega arith) (omega arith) max)
          λ off' t (at_end, same, bytes).
            let place : off' ≡ off + n = omega (arith, at_end) in
            let block : iblock s (s.inode p).inum ≡ iblock t (t.inode p).inum =
              cc (same.same_inode, same.same_start) in
            let laid' : IsLaidOut (block_of t p) (indirect t p) (iblock t (t.inode p).inum) size =
              subst (λ b. IsLaidOut (block_of t p) (indirect t p) b size) block
                (IsLaidOut-IsSame s p _ size laid t same) in
            Yields-bind (grow-Resized t p n off' size np laid') λ _ u r. yields (
              ground arith,
              (
                r.new_size
                    ∙ ap (λ (f : Ptr → Inode). grown (f p).size n off') same.same_inode
                    ∙ ap (grown (s.inode p).size n) place,
                r.same_type ∙ ap (λ (f : Ptr → Inode). (f p).type_) same.same_inode,
                r.blocks_kept ∙ same.same_blocks,
                λ i h.
                    r.bytes_kept i h
                    ∙ bytes i h
                    ∙ ap (λ l. spliced l off c src (content s p) i) (omega arith),
              ),
            ))

  read_back :
      (dst : Memory) (d : ℕ) (t : FileSystem) (r : ℤ × Memory) (u : FileSystem)
      → Reads t p dst d off n r u
      → off ≤ (t.inode p).size
      → available (t.inode p).size off n ≡ n
      → ((i : ℕ) → i < size → content t p i ≡ spliced n off c src (content s p) i)
      → (r.0 ≡ pos n) × ((j : ℕ) → j < n → r.1 (d + j) ≡ src (c + j))
  read_back dst d t r u (_, inl (inl below, _)) le count bytes = absurd (omega arith)
  read_back dst d t r u (_, inl (inr wraps, _)) le count bytes = absurd (omega arith)
  read_back dst d t r u (_, inr (_, number, back)) le count bytes = (
    number ∙ ap pos count,
    λ j h.
        let inside : (leb d (d + j) && ltb (d + j) (d + n)) ≡ true = ground arith in
        let here : off + (d + j - d) ≡ off + j = omega arith in
        let written : (leb off (off + j) && ltb (off + j) (off + n)) ≡ true = ground arith in
        let there : c + (off + j - off) ≡ c + j = omega arith in
        back (d + j)
        ∙ ap (λ l. spliced l d off (content t p) dst (d + j)) count
        ∙ rw (inside, here) (bytes (off + j) (omega arith) ∙ rw (written, there) refl),
  )

  -- What writei writes, readi reads: of a file whose blocks are there, writei at an offset up to its end
  -- and then readi of as many bytes at that offset returns that number and the bytes written.
  pub readi-writei :
      (dst : Memory) (d : ℕ)
      → Yields
          (λ r _. (r.0 ≡ pos n) × ((j : ℕ) → j < n → r.1 (d + j) ≡ src (c + j)))
          ((writei devs p src c off n >>= λ _. readi devs p dst d off n) s)
  readi-writei dst d = Yields-bind writei-Written λ _ t (_, (len, kind, blocks, bytes)).
      let long : off + n ≤ (t.inode p).size = rw len (ground arith) in
      let short : (t.inode p).size ≤ size = rw len (ground arith) in
      let count : available (t.inode p).size off n ≡ n = ground arith in
      let filled : HasBlocks t p (t.inode p).size =
        λ i h. subst (λ (f : ℕ → ℕ). 0 < f (i / bsize)) (sym blocks) (laid.has i (omega arith)) in
      Yields-mono
        (readi-content devs t p dst d off n np (λ e. file (sym kind ∙ e)) (omega arith)
          (omega arith) (omega arith) filled)
        λ r u read. read_back dst d t r u read (omega arith) count bytes
