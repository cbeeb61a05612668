-- ===== src/Inode/Path/Rounds.antt =====
-- A round of namex takes bytes of the path.
use cs.Prelude.{
  ℕ, ◌≤◌, ◌<◌, inl, inr, List, [], ◌∷◌, Option, none, some, arith, ◌==◌, Bool-cases, length,
}
use cs.Bytes.{Memory}
use cs.Inode.Path.{slash, skip_slashes, past_element, take_element, skipelem}

length-skip_slashes : (path : List ℕ) → length (skip_slashes path) ≤ length path
unfolding skip_slashes
length-skip_slashes [] = omega arith
length-skip_slashes (c ∷ path) = ground (arith, length-skip_slashes path)

length-past_element : (path : List ℕ) → length (past_element path) ≤ length path
unfolding past_element
length-past_element [] = omega arith
length-past_element (c ∷ path) = ground (arith, length-past_element path)

-- What take_element leaves is shorter, where the path does not begin with a slash.
abbrev pub Shorter : List ℕ → Option (List ℕ × Memory) → Type 0
Shorter path none = Unit {0}
Shorter path (some (rest, _)) = length rest < length path

Shorter-cons :
    (c : ℕ) (path : List ℕ) (o : Option (List ℕ × Memory)) → Shorter path o → Shorter (c ∷ path) o
Shorter-cons c path none h = tt
Shorter-cons c path (some _) h = omega (arith, h)

pub skipelem-Shorter : (path : List ℕ) (name : ℕ) (m : Memory) → Shorter path (skipelem path name m)
unfolding skipelem skip_slashes take_element
skipelem-Shorter [] name m = tt
skipelem-Shorter (c ∷ path) name m = elim (Bool-cases (c == slash)) [
  | inl s ↦ rw s (Shorter-cons c path _ (skipelem-Shorter path name m))
  | inr o ↦
      rw (o, o) (omega (arith, length-skip_slashes (past_element path), length-past_element path))
]
