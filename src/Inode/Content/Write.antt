-- ===== src/Inode/Content/Write.antt =====
-- What writei leaves in the blocks of a file that has them.
use cs.Prelude.{
  ℕ, zero, suc, ◌+◌, ◌-◌, ◌/◌, ◌%◌, ◌≤◌, ◌<◌, ◌≡◌, refl, ◌∙◌, sym, subst, ap, ◌≢◌, Bool-cases, inl,
  inr, arith, ◌==◌, ltb, leb, ◌&&◌, if◌then◌else◌, false, ==_ne, ==_refl, fun_ext, ◌∷◌,
}
use cs.Prelude.Run.{Yields, yields, Yields-mono}
use cs.Bytes.{Memory}
use cs.Proc.Table.{Ptr, null}
use cs.Fs.{bsize}
use cs.Inode.{Inode, FileSystem}
use cs.Inode.Dinode.{ndirect}
use cs.Inode.Content.{copy_between, chunk_size, writei_loop, max_size}
use cs.Inode.Content.Between.{
  spliced, spliced-spliced, copy_between-spliced, block_of, content, bmap-has,
}
use cs.Inode.Content.Read.{spliced-same, chunk_bounds}

-- The blocks of the first `size` bytes of a file are there and differ from one another, from the indirect
-- block `ind` and from the block `ib` of the inode.
pub record IsLaidOut (block : ℕ → ℕ) (ind ib size : ℕ) : Type 0 where
  pub has : (i : ℕ) → i < size → 0 < block (i / bsize)
  pub distinct :
      (i j : ℕ)
      → i < size
      → j < size
      → block (i / bsize) ≡ block (j / bsize)
      → i / bsize ≡ j / bsize
  pub not_indirect : (i : ℕ) → i < size → block (i / bsize) ≢ ind
  pub not_inode : (i : ℕ) → i < size → block (i / bsize) ≢ ib
  pub indirect_not_inode : ind ≢ ib

abbrev pub indirect : FileSystem → Ptr → ℕ
indirect s p = (s.inode p).addrs ndirect

-- Only the data of the file have changed.
pub record IsSame (s t : FileSystem) (p : Ptr) : Type 0 where
  pub same_inode : t.inode ≡ s.inode
  pub same_start : t.inodestart ≡ s.inodestart
  pub same_blocks : block_of t p ≡ block_of s p

-- The state with data `v` in block `b`.
abbrev pub stored : FileSystem → ℕ → Memory → FileSystem
stored s b v = record s {
  fs = record s.fs { cache = λ c. if c == b then v else s.fs.cache c; logged = b ∷ s.fs.logged };
}

pub stored-IsSame :
    (s : FileSystem) (p : Ptr) (b : ℕ) (v : Memory) → b ≢ indirect s p → IsSame s (stored s b v) p
stored-IsSame s p b v ne = record {
  same_inode = refl;
  same_start = refl;
  same_blocks = fun_ext λ bn. rw (==_ne (indirect s p) b (λ e. ne (sym e))) refl;
}

IsSame-trans : (s t u : FileSystem) (p : Ptr) → IsSame s t p → IsSame t u p → IsSame s u p
IsSame-trans s t u p a b = record {
  same_inode = b.same_inode ∙ a.same_inode;
  same_start = b.same_start ∙ a.same_start;
  same_blocks = b.same_blocks ∙ a.same_blocks;
}

-- A chunk inside of one block, seen in the file.
chunk_near :
    (m off c i : ℕ) (src f g : Memory)
    → i / bsize ≡ off / bsize
    → g (i % bsize) ≡ f i
    → spliced m (off % bsize) c src g (i % bsize) ≡ spliced m off c src f i
chunk_near m off c i src f g near same =
    let place : c + (i % bsize - off % bsize) ≡ c + (i - off) = ground arith in
    let inside : (leb (off % bsize) (i % bsize) && ltb (i % bsize) (off % bsize + m))
        ≡ (leb off i && ltb i (off + m)) =
      ground arith in
    rw (place, inside, same) refl

chunk_far :
    (m off c i : ℕ) (src f : Memory)
    → i / bsize ≢ off / bsize
    → off % bsize + m ≤ bsize
    → spliced m off c src f i ≡ f i
chunk_far m off c i src f far fit =
    let outside : (leb off i && ltb i (off + m)) ≡ false = ground arith in rw outside refl

module _ (s : FileSystem) (p : Ptr) (ib size : ℕ)
    (laid : IsLaidOut (block_of s p) (indirect s p) ib size) where
  -- One chunk written.
  stored-content :
      (m off c : ℕ) (src : Memory) (i : ℕ)
      → off < size
      → i < size
      → off % bsize + m ≤ bsize
      → content
          (stored s
            (block_of s p (off / bsize))
            (copy_between m (off % bsize) c src (s.fs.cache (block_of s p (off / bsize)))))
          p
          i
        ≡ spliced m off c src (content s p) i
  stored-content m off c src i low lt fit =
      ap (λ (f : ℕ → ℕ). t.fs.cache (f (i / bsize)) (i % bsize))
        (stored-IsSame s p b v (laid.not_indirect off low)).same_blocks
      ∙ elim (Bool-cases (i / bsize == off / bsize)) [
        | inl near ↦
            let e : i / bsize ≡ off / bsize = ground arith in
            let here : block_of s p (i / bsize) ≡ b = ap (block_of s p) e in
            ap (λ z. (if z == b then v else s.fs.cache z) (i % bsize)) here
            ∙ rw (==_refl b) (
                copy_between-spliced m (off % bsize) c src (s.fs.cache b) (i % bsize)
                ∙ chunk_near m off c i src (content s p) (s.fs.cache b) e
                    (ap (λ z. s.fs.cache z (i % bsize)) (sym here)))
        | inr far ↦
            let apart : i / bsize ≢ off / bsize = ground arith in
            rw (==_ne (block_of s p (i / bsize)) b (λ e. apart (laid.distinct i off lt low e)))
              (sym (chunk_far m off c i src (content s p) apart fit))
      ]
    where
      b : ℕ
      b = block_of s p (off / bsize)

      v : Memory
      v = copy_between m (off % bsize) c src (s.fs.cache b)

      t : FileSystem
      t = stored s b v

  pub IsLaidOut-IsSame :
      (t : FileSystem) → IsSame s t p → IsLaidOut (block_of t p) (indirect t p) ib size
  IsLaidOut-IsSame t same =
      subst (λ f. IsLaidOut f (indirect t p) ib size) (sym same.same_blocks)
        (subst (λ (f : Ptr → Inode). IsLaidOut (block_of s p) ((f p).addrs ndirect) ib size)
          (sym same.same_inode) laid)

-- The loop of writei leaves the data in the file, and all else of the file as it was.
pub writei_loop-content :
    (s : FileSystem) (p : Ptr) (ib size k tot n off c : ℕ) (src : Memory)
    → IsLaidOut (block_of s p) (indirect s p) ib size
    → p ≢ null
    → tot ≤ n
    → n < tot + k
    → off + (n - tot) ≤ size
    → size ≤ max_size
    → Yields
        (λ off' t.
          (off' ≡ off + (n - tot))
          × IsSame s t p
          × ((i : ℕ) → i < size → content t p i ≡ spliced (n - tot) off c src (content s p) i))
        (writei_loop p k tot n off src c s)
unfolding writei_loop
writei_loop-content s p ib size zero tot n off c src laid np le fuel fits max = absurd (omega arith)
writei_loop-content s p ib size (suc k) tot n off c src laid np le fuel fits max =
    elim (Bool-cases (ltb tot n)) [
      | inr done ↦
          let all : n - tot ≡ 0 = ground arith in
          rw (done, all)
            (yields (
              omega arith,
              record { same_inode = refl; same_start = refl; same_blocks = refl },
              λ i h. ground arith,
            ))
      | inl more ↦
          let m = chunk_size tot n off in
          let (some, most, fit) = chunk_bounds tot n off (ground arith) in
          let low : off < size = ground arith in
          let b = block_of s p (off / bsize) in
          let v = copy_between m (off % bsize) c src (s.fs.cache b) in
          let t = stored s b v in
          let same : IsSame s t p = stored-IsSame s p b v (laid.not_indirect off low) in
          let left : n - (tot + m) ≡ n - tot - m = omega arith in
          let whole : m + (n - tot - m) ≡ n - tot = omega arith in
          rw (more, bmap-has s p (off / bsize) np (ground arith) (laid.has off low))
            (Yields-mono
              (writei_loop-content t p ib size k (tot + m) n (off + m) (c + m) src
                (IsLaidOut-IsSame s p ib size laid t same) np (omega arith) (omega arith)
                (omega arith) max)
              λ off' u (end, same', bytes). (
                omega (arith, end),
                IsSame-trans s t u p same same',
                λ i h.
                    bytes i h
                    ∙ ap (λ l. spliced l (off + m) (c + m) src (content t p) i) left
                    ∙ spliced-same (n - tot - m) (off + m) (c + m) src (content t p)
                        (spliced m off c src (content s p)) i
                        (stored-content s p ib size laid m off c src i low h fit)
                    ∙ spliced-spliced m (n - tot - m) off c src (content s p) i
                    ∙ ap (λ l. spliced l off c src (content s p) i) whole,
              ))
    ]
