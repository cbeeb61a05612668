-- ===== src/Proc/StateList/Remove/Walk.antt =====
-- The walk of stateListRemove to the process, and the links after it.
use cs.Prelude.{
  ℕ, zero, suc, ◌<◌, ◌≡◌, sym, subst, inl, inr, true, false, List, [], ◌∷◌, arith, ◌==◌, ==_ne,
  if◌then◌else◌, Bool-cases, length,
}
use cs.Prelude.Finite.{has, Distinct, erase, last, has-last}
use cs.Prelude.Run.{ok}
use cs.Proc.Table.{Ptr, null, Proc, Kern, put}
use cs.Proc.StateList.{walk}
use cs.Proc.StateList.Queue.{Chain, Chain-frame}

-- The process before `p`, where the walk comes from `prev`.
abbrev pub pred : Ptr → Ptr → List Ptr → Ptr
pred p prev [] = prev
pred p prev (y ∷ ys) = if y == p then prev else pred p y ys

pub has-pred : (p prev : Ptr) (xs : List Ptr) → has (pred p prev xs) (prev ∷ xs) ≡ true
has-pred p prev [] = ground arith
has-pred p prev (y ∷ ys) = ground (arith, has-pred p y ys)

-- The links after the writes of a removal that is not at the head.
abbrev pub skip : (Ptr → Proc) → Ptr → Ptr → Ptr → Proc
skip f q p =
    let g = put f q (record (f q) { next = (f p).next }) in put g p (record (g p) { next = null })

-- The loop finds `p` and the process before it; the fuel is enough for the list.
pub walk-pred :
    (k : ℕ) (s : Kern) (prev cur p : Ptr) (xs : List Ptr)
    → Chain s.procs cur xs
    → has p xs ≡ true
    → length xs < k
    → walk k prev cur p s ≡ ok (pred p prev xs, p) s
unfolding walk
walk-pred zero s prev cur p xs c i fuel = absurd (omega arith)
walk-pred (suc k) s prev cur p [] c i fuel = cc
walk-pred (suc k) s prev cur p (y ∷ ys) c i fuel = elim (Bool-cases (y == p)) [
  | inl hit ↦ rw (c.0, ==_ne y null c.1, hit) (ground arith)
  | inr miss ↦
      rw (c.0, ==_ne y null c.1, miss, ==_ne y null c.1)
        (walk-pred k s y _ p ys c.2 (ground arith) (omega arith))
]

pub walk-null :
    (k : ℕ) (s : Kern) (prev cur p : Ptr) (xs : List Ptr)
    → Chain s.procs cur xs
    → has p xs ≡ false
    → length xs < k
    → walk k prev cur p s ≡ ok (last prev xs, null) s
unfolding walk
walk-null zero s prev cur p xs c i fuel = absurd (omega arith)
walk-null (suc k) s prev cur p [] c i fuel = rw c
walk-null (suc k) s prev cur p (y ∷ ys) c i fuel =
    let miss : (y == p) ≡ false = ground arith in
    rw (c.0, ==_ne y null c.1, miss, ==_ne y null c.1)
      (walk-null k s y _ p ys c.2 (ground arith) (omega arith))

pub Chain-skip :
    (f : Ptr → Proc) (p prev : Ptr) (xs : List Ptr)
    → Chain f (f prev).next xs
    → Distinct (prev ∷ xs)
    → has p xs ≡ true
    → Chain (skip f (pred p prev xs) p) (skip f (pred p prev xs) p prev).next (erase p xs)
Chain-skip f p prev [] c d i = cc
Chain-skip f p prev (y ∷ ys) c d i = elim (Bool-cases (y == p)) [
  | inl hit ↦
      let e : y ≡ p = ground arith in
      let rest = subst (λ z. Chain f (f z).next ys) e c.2 in
      let head : (skip f prev p prev).next ≡ (f p).next = ground arith in
      rw hit (
        subst (λ z. Chain (skip f prev p) z ys) (sym head)
          (Chain-frame f (skip f prev p) (f p).next ys (λ q k. ground arith) rest))
  | inr miss ↦
      rw miss (ground (arith, has-pred p y ys), c.1, Chain-skip f p y ys c.2 d.1 (ground arith))
]

pub last-erase :
    (p prev : Ptr) (xs : List Ptr)
    → Distinct (prev ∷ xs)
    → has p xs ≡ true
    → last prev (erase p xs) ≡ (if last prev xs == p then pred p prev xs else last prev xs)
last-erase p prev [] d i = cc
last-erase p prev (y ∷ []) d i = ground arith
last-erase p prev (y ∷ z ∷ zs) d i = elim (Bool-cases (y == p)) [
  | inl hit ↦ rw hit (ground (arith, has-last z zs))
  | inr miss ↦ rw miss (last-erase p y (z ∷ zs) d.1 (ground arith))
]

pub next-last :
    (f : Ptr → Proc) (h x : Ptr) (xs : List Ptr) → Chain f h (x ∷ xs) → (f (last x xs)).next ≡ null
next-last f h x [] c = c.2
next-last f h x (y ∷ ys) c = next-last f (f x).next y ys c.2
