-- ===== src/Proc/Scan/First.antt =====
-- A scan finds the first process of its lists that passes the test, and writes nothing.
use cs.Prelude.{
  ℕ, zero, suc, ◌+◌, ◌<◌, ◌≡◌, refl, inl, inr, Bool, true, false, List, [], ◌∷◌, arith, ◌==◌, ==_ne,
  ==_refl, if◌then◌else◌, Bool-cases, length, subst, sym,
}
use cs.Prelude.Finite.{has}
use cs.Prelude.Run.{ok}
use cs.Proc.Table.{Ptr, null, nproc, Proc, ListName, is_list, Kern, read_ends}
use cs.Proc.StateList.Queue.{Chain}
use cs.Proc.Lists.Members.{Members, Lists, Lists-length}
use cs.Proc.Scan.{scan, scan_lists}

abbrev pub first : (Ptr → Proc) → (Proc → Bool) → List Ptr → Ptr
first f test [] = null
first f test (x ∷ xs) = if test (f x) then x else first f test xs

abbrev pub first_in : (Ptr → Proc) → (Proc → Bool) → Members → List ListName → Ptr
first_in f test L [] = null
first_in f test L (n ∷ ns) =
    if first f test (L n) == null then first_in f test L ns else first f test (L n)

pub scan-first :
    (k : ℕ) (test : Proc → Bool) (h : Ptr) (s : Kern) (l : List Ptr)
    → Chain s.procs h l
    → length l < k
    → scan k test h s ≡ ok (first s.procs test l) s
unfolding scan
scan-first zero test h s l c fuel = absurd (omega arith)
scan-first (suc k) test h s [] c fuel = rw c
scan-first (suc k) test h s (x ∷ xs) c fuel = elim (Bool-cases (test (s.procs x))) [
  | inl hit ↦ simp (c.0, ==_ne x null c.1, hit)
  | inr miss ↦
      let rest : scan k test (s.procs x).next s ≡ ok (first s.procs test xs) s =
        scan-first k test _ s xs c.2 (omega arith) in
      simp (c.0, ==_ne x null c.1, miss, rest)
]

abbrev pub AllLists : List ListName → Type 0
AllLists [] = Unit {0}
AllLists (n ∷ ns) = (is_list n ≡ true) × AllLists ns

pub scan_lists-first :
    (ns : List ListName) (test : Proc → Bool) (s : Kern) (L : Members)
    → Lists s L
    → AllLists ns
    → scan_lists ns test s ≡ ok (first_in s.procs test L ns) s
unfolding scan_lists read_ends
scan_lists-first [] test s L v named = refl
scan_lists-first (n ∷ ns) test s L v named =
    let found =
      scan-first (nproc + 1) test _ s (L n) (v.queue n named.0).chain
        (omega (arith, Lists-length s L v n)) in
    let rest = scan_lists-first ns test s L v named.1 in
    elim (Bool-cases (first s.procs test (L n) == null)) [
      | inl e ↦ simp (named.0, found, e, rest)
      | inr e ↦ simp (named.0, found, e)
    ]

-- What the first process that passes is.
pub first-cases :
    (f : Ptr → Proc) (test : Proc → Bool) (l : List Ptr)
    → (first f test l == null) ≡ false
    → (has (first f test l) l ≡ true) × (test (f (first f test l)) ≡ true)
first-cases f test [] e = cc
first-cases f test (x ∷ xs) e = elim (Bool-cases (test (f x))) [
  | inl hit ↦ rw hit (rw (==_refl x) refl, hit)
  | inr miss ↦
      let r = first-cases f test xs (rw miss at e) in
      let same : first f test (x ∷ xs) ≡ first f test xs = rw miss refl in
      subst (λ z. (has z (x ∷ xs) ≡ true) × (test (f z) ≡ true)) (sym same) (ground arith, r.1)
]

-- On which list it is.
pub first_in-cases :
    (f : Ptr → Proc) (test : Proc → Bool) (L : Members) (ns : List ListName)
    → (first_in f test L ns == null) ≡ false
    → (n : ListName) × (has (first_in f test L ns) (L n) ≡ true)
      × (test (f (first_in f test L ns)) ≡ true)
first_in-cases f test L [] e = cc
first_in-cases f test L (n ∷ ns) e = elim (Bool-cases (first f test (L n) == null)) [
  | inl none ↦ let r = first_in-cases f test L ns (rw none at e) in rw none r
  | inr some ↦ let c = first-cases f test (L n) some in rw some (n, c.0, c.1)
]

-- A property of all the lists that are searched holds of the list on which the process is.
abbrev pub AllOf : (ListName → Type 0) → List ListName → Type 0
AllOf P [] = Unit {0}
AllOf P (n ∷ ns) = P n × AllOf P ns

pub first_in-among :
    (P : ListName → Type 0) (f : Ptr → Proc) (test : Proc → Bool) (L : Members) (ns : List ListName)
    → AllOf P ns
    → (first_in f test L ns == null) ≡ false
    → (n : ListName) × P n
      × (has (first_in f test L ns) (L n) ≡ true)
      × (test (f (first_in f test L ns)) ≡ true)
first_in-among P f test L [] a e = cc
first_in-among P f test L (n ∷ ns) a e = elim (Bool-cases (first f test (L n) == null)) [
  | inl none ↦ let r = first_in-among P f test L ns a.1 (rw none at e) in rw none r
  | inr some ↦ let c = first-cases f test (L n) some in rw some (n, a.0, c.0, c.1)
]
