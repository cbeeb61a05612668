-- ===== src/Proc/StateList/Queue.antt =====
-- What the pointers of a state list stand for: a list of distinct processes.
use cs.Prelude.{◌≡◌, ◌≢◌, true, false, List, [], ◌∷◌, ◌++◌, arith, ◌==◌}
use cs.Prelude.Finite.{has, Distinct, last, has-last}
use cs.Proc.Table.{Ptr, null, Proc, ListName, same_list, Ends, Kern, put}

-- From `h` the `next` pointers lead through the processes of the list to null.
abbrev pub Chain : (Ptr → Proc) → Ptr → List Ptr → Type 0
Chain f h [] = h ≡ null
Chain f h (x ∷ xs) = (h ≡ x) × (x ≢ null) × Chain f (f x).next xs

-- The tail of a list that is not empty; that of an empty list is not read.
abbrev pub TailIs : Ptr → List Ptr → Type 0
TailIs t [] = Unit {0}
TailIs t (x ∷ xs) = t ≡ last x xs

pub record IsQueue (f : Ptr → Proc) (e : Ends) (l : List Ptr) : Type 0 where
  pub chain : Chain f e.head l
  pub tail_is : TailIs e.tail l

-- `t` is `s` but for the links of list `n`: only the `next` fields of `l` are written, and no other
-- list's pointers.
pub record Relinked (s t : Kern) (n : ListName) (l : List Ptr) : Type 0 where
  pub fields : (q : Ptr) → t.procs q ≡ record (s.procs q) { next = (t.procs q).next }
  pub outside : (q : Ptr) → has q l ≡ false → t.procs q ≡ s.procs q
  pub others : (m : ListName) → same_list m n ≡ false → t.ends m ≡ s.ends m
  pub rest : t ≡ record s { procs = t.procs; ends = t.ends }

pub Chain-frame :
    (f g : Ptr → Proc) (h : Ptr) (l : List Ptr)
    → ((q : Ptr) → has q l ≡ true → (g q).next ≡ (f q).next)
    → Chain f h l
    → Chain g h l
Chain-frame f g h [] same c = c
Chain-frame f g h (x ∷ xs) same c =
    let tail = Chain-frame f g (f x).next xs (λ q i. same q (ground arith)) c.2 in
    (c.0, c.1, subst_head (same x (ground arith)) tail)
  where
    subst_head : (g x).next ≡ (f x).next → Chain g (f x).next xs → Chain g (g x).next xs
    subst_head e k = rw e k

-- `p` linked behind the last process.
abbrev pub link : (Ptr → Proc) → Ptr → Ptr → Ptr → Proc
link f t p = let g = put f t (record (f t) { next = p }) in put g p (record (g p) { next = null })

pub Chain-snoc :
    (f : Ptr → Proc) (p h x : Ptr) (xs : List Ptr)
    → Chain f h (x ∷ xs)
    → Distinct (x ∷ xs)
    → has p (x ∷ xs) ≡ false
    → p ≢ null
    → Chain (link f (last x xs) p) h ((x ∷ xs) ++ p ∷ [])
Chain-snoc f p h x [] c d out ne = ground arith
Chain-snoc f p h x (y ∷ ys) c d out ne =
    let e : (f x).next ≡ y = c.2.0 in
    let far : (x == last y ys) ≡ false = ground (arith, has-last y ys) in
    let near : (x == p) ≡ false = ground arith in
    (c.0, c.1, rw (far, near) (Chain-snoc f p (f x).next y ys c.2 d.1 (ground arith) ne))
