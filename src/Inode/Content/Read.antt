-- ===== src/Inode/Content/Read.antt =====
-- readi returns the content of the file.
use cs.Prelude.{
  ℕ, zero, suc, ◌+◌, ◌-◌, ◌/◌, ◌%◌, ◌^◌, ◌≤◌, ◌<◌, ◌≡◌, refl, ◌∙◌, sym, subst, ◌⊎◌, ap, ◌≢◌,
  Bool-cases, inl, inr, arith, ltb, leb, ◌||◌, ◌&&◌, if◌then◌else◌, true, false, ==_ne,
}
use cs.Prelude.Int.{pos, negsuc, ℤ}
use cs.Prelude.Run.{Yields, yields, Yields-bind, Yields-mono}
use cs.Bytes.{Memory}
use cs.Proc.Table.{Ptr, null, add32}
use cs.Fs.{bsize}
use cs.Inode.{FileSystem}
use cs.Inode.Content.{
  copy_between, chunk_size, readi_loop, read_data, readi, Devices, max_size, t_dev,
}
use cs.Inode.Content.Between.{spliced, copy_between-spliced, block_of, content, bmap-has}

-- Every block of the first `size` bytes is there.
abbrev pub HasBlocks : FileSystem → Ptr → (size : ℕ) → Type 0
HasBlocks s p size = (i : ℕ) → i < size → 0 < block_of s p (i / bsize)

-- A piece `g` of the content `f`, and then the rest.
spliced-piece :
    (f g : Memory) (m n o off d : ℕ) (dst : Memory) (a : ℕ)
    → ((x : ℕ) → x < m → g (o + x) ≡ f (off + x))
    → m ≤ n
    → spliced (n - m) (d + m) (off + m) f (spliced m d o g dst) a ≡ spliced n d off f dst a
spliced-piece f g m n o off d dst a same le = elim (Bool-cases (leb d a && ltb a (d + m))) [
  | inl inside ↦
      let whole : (leb d a && ltb a (d + n)) ≡ true = ground arith in
      let later : (leb (d + m) a && ltb a (d + m + (n - m))) ≡ false = ground arith in
      rw (inside, whole, later) (same (a - d) (ground arith))
  | inr out ↦ rw out (ground arith)
]

pub spliced-same :
    (n d c : ℕ) (f dst dst' : Memory) (a : ℕ)
    → dst a ≡ dst' a
    → spliced n d c f dst a ≡ spliced n d c f dst' a
spliced-same n d c f dst dst' a h = ground (arith, h)

chunk_size-content :
    (s : FileSystem) (p : Ptr) (off x : ℕ)
    → off % bsize + x < bsize
    → s.fs.cache (block_of s p (off / bsize)) (off % bsize + x) ≡ content s p (off + x)
chunk_size-content s p off x small =
    let block : (off + x) / bsize ≡ off / bsize = ground arith in
    let place : (off + x) % bsize ≡ off % bsize + x = ground arith in
    cc (ap (block_of s p) block, place)

pub chunk_bounds :
    (tot n off : ℕ)
    → tot < n
    → (0 < chunk_size tot n off)
      × (chunk_size tot n off ≤ n - tot)
      × (off % bsize + chunk_size tot n off ≤ bsize)
chunk_bounds tot n off lt = ground arith

readi_loop-content :
    (s : FileSystem) (p : Ptr) (k tot n off d : ℕ) (dst : Memory)
    → p ≢ null
    → tot ≤ n
    → n < tot + k
    → off + (n - tot) ≤ max_size
    → HasBlocks s p (off + (n - tot))
    → Yields
        (λ m t. (t ≡ s) × ((a : ℕ) → m a ≡ spliced (n - tot) d off (content s p) dst a))
        (readi_loop p k tot n off d dst s)
unfolding readi_loop
readi_loop-content s p zero tot n off d dst np le fuel fits has = absurd (omega arith)
readi_loop-content s p (suc k) tot n off d dst np le fuel fits has = elim (Bool-cases (ltb tot n)) [
  | inr done ↦ rw done (yields (refl, λ a. ground arith))
  | inl more ↦
      let m = chunk_size tot n off in
      let (some, most, fit) = chunk_bounds tot n off (ground arith) in
      let g = s.fs.cache (block_of s p (off / bsize)) in
      let dst' = copy_between m d (off % bsize) g dst in
      let left : n - (tot + m) ≡ n - tot - m = omega arith in
      let end : off + m + (n - (tot + m)) ≡ off + (n - tot) = omega arith in
      rw (more, bmap-has s p (off / bsize) np (ground arith) (has off (ground arith)))
        (Yields-mono
          (readi_loop-content s p k (tot + m) n (off + m) (d + m) dst' np (omega arith)
            (omega arith) (omega arith) (subst (HasBlocks s p) (sym end) has))
          λ r t (same, bytes). (
            same,
            λ a.
                bytes a
                ∙ ap (λ l. spliced l (d + m) (off + m) (content s p) dst' a) left
                ∙ spliced-same (n - tot - m) (d + m) (off + m) (content s p) dst'
                    (spliced m d (off % bsize) g dst) a
                    (copy_between-spliced m d (off % bsize) g dst a)
                ∙ spliced-piece (content s p) g m (n - tot) (off % bsize) off d dst a
                    (λ x h. chunk_size-content s p off x (omega arith)) most,
          ))
]

-- The count of bytes that readi returns.
abbrev pub available : (size off n : ℕ) → ℕ
available size off n = if ltb size (off + n) then size - off else n

refused_range :
    (size off n : ℕ)
    → off < 2 ^ 32
    → n < 2 ^ 32
    → (ltb size off || ltb (add32 off n) off) ≡ true
    → (size < off) ⊎ (2 ^ 32 ≤ off + n)
refused_range size off n lo ln h = ground arith

pub accepted_range :
    (size off n : ℕ)
    → off < 2 ^ 32
    → n < 2 ^ 32
    → (ltb size off || ltb (add32 off n) off) ≡ false
    → (off ≤ size) × (add32 off n ≡ off + n)
accepted_range size off n lo ln h = ground arith

-- The bytes that are left or asked for have come to `d`, or the range is refused.
abbrev pub Reads :
    FileSystem → Ptr → (dst : Memory) → (d off n : ℕ) → ℤ × Memory → FileSystem → Type 0
Reads s p dst d off n r t =
    (t ≡ s)
    × (((((s.inode p).size < off) ⊎ (2 ^ 32 ≤ off + n)) × (r ≡ (negsuc 0, dst)))
        ⊎ ((off ≤ (s.inode p).size)
            × (r.0 ≡ pos (available (s.inode p).size off n))
            × ((a : ℕ)
                → r.1 a ≡ spliced (available (s.inode p).size off n) d off (content s p) dst a)))

-- readi of a file that has its blocks, at an offset up to its end, returns the count of bytes that are
-- asked for or left, leaves exactly these bytes of the content at the address and changes nothing else;
-- a range that starts beyond the end or wraps around is refused.
pub readi-content :
    (devs : Devices) (s : FileSystem) (p : Ptr) (dst : Memory) (d off n : ℕ)
    → p ≢ null
    → (s.inode p).type_ ≢ t_dev
    → off < 2 ^ 32
    → n < 2 ^ 32
    → (s.inode p).size ≤ max_size
    → HasBlocks s p (s.inode p).size
    → Yields (Reads s p dst d off n) (readi devs p dst d off n s)
unfolding readi read_data
readi-content devs s p dst d off n np file lo ln max has =
    let ip = s.inode p in
    rw (==_ne p null np, ==_ne ip.type_ t_dev file)
      (elim (Bool-cases (ltb ip.size off || ltb (add32 off n) off)) [
        | inl refused ↦
            rw refused (yields (refl, inl (refused_range ip.size off n lo ln refused, refl)))
        | inr inside ↦
            let (low, total) = accepted_range ip.size off n lo ln inside in
            let count : (if ltb ip.size (add32 off n) then ip.size - off else n)
                ≡ available ip.size off n =
              ap (λ z. if ltb ip.size z then ip.size - off else n) total in
            rw (inside, count)
              (Yields-bind
                (readi_loop-content s p (available ip.size off n + 1) 0 (available ip.size off n)
                  off d dst np (omega arith) (omega arith) (ground arith)
                  (λ i h. has i (ground arith)))
                λ m t (same, bytes). yields (
                  same,
                  inr (
                    low,
                    ground arith,
                    λ a. bytes a ∙ ap (λ l. spliced l d off (content s p) dst a) (omega arith),
                  ),
                ))
      ])
