-- ===== src/Inode/Path/Elements.antt =====
-- skipelem takes the elements of a path in their order, and namex has rounds enough.
use cs.Prelude.{
  ℕ, zero, suc, ◌≡◌, refl, ap, ◌≢◌, inl, inr, List, [], ◌∷◌, ◌++◌, none, some, true, false, Bool,
  arith, ◌==◌, ==_ne, Bool-cases,
}
use cs.Bytes.{Memory}
use cs.Inode.Path.Name.{HasName, put_name-HasName}
use cs.Inode.Path.{
  slash, skip_slashes, element, past_element, put_name, take_element, skipelem, is_end,
}

-- A list without a slash.
abbrev pub NoSlash : List ℕ → Type 0
NoSlash [] = Unit {0}
NoSlash (c ∷ cs) = (c ≢ slash) × NoSlash cs

-- An element has bytes, none of which is a slash.
pub data IsElement : List ℕ → Type 0 where
  is_element : {c : ℕ} {cs : List ℕ} → c ≢ slash → NoSlash cs → IsElement (c ∷ cs)

-- What follows an element: a slash or the end.
pub data Follows : List ℕ → Type 0 where
  follows_end : Follows []
  follows_slash : {cs : List ℕ} → Follows (slash ∷ cs)

abbrev pub slashes : ℕ → List ℕ
slashes zero = []
slashes (suc k) = slash ∷ slashes k

-- The elements of a path, with any number of slashes before, between and after them.
pub data HasElements : List ℕ → List (List ℕ) → Type 0 where
  no_elements : (k : ℕ) → HasElements (slashes k) []
  next_element :
      (k : ℕ) {e rest : List ℕ} {es : List (List ℕ)}
      → IsElement e
      → Follows rest
      → HasElements rest es
      → HasElements (slashes k ++ (e ++ rest)) (e ∷ es)

skip_slashes-slashes : (k : ℕ) (cs : List ℕ) → skip_slashes (slashes k ++ cs) ≡ skip_slashes cs
unfolding skip_slashes
skip_slashes-slashes zero cs = refl
skip_slashes-slashes (suc k) cs = skip_slashes-slashes k cs

element-append :
    (cs rest : List ℕ)
    → NoSlash cs
    → Follows rest
    → (element (cs ++ rest) ≡ cs) × (past_element (cs ++ rest) ≡ rest)
unfolding element past_element
element-append [] rest clean follows_end = (refl, refl)
element-append [] rest clean follows_slash = (refl, refl)
element-append (c ∷ cs) rest (ne, clean) follows =
    let (first, second) = element-append cs rest clean follows in
    rw (==_ne c slash ne) (ap (λ l. c ∷ l) first, second)

-- Without leading slashes the elements are the same.
skip_slashes-HasElements :
    {path : List ℕ} {es : List (List ℕ)} → HasElements path es → HasElements (skip_slashes path) es
unfolding skip_slashes
skip_slashes-HasElements (no_elements zero) = no_elements zero
skip_slashes-HasElements (no_elements (suc k)) = skip_slashes-HasElements (no_elements k)
skip_slashes-HasElements (next_element zero (is_element ne clean) follows rest) =
    rw (==_ne _ slash ne) (next_element zero (is_element ne clean) follows rest)
skip_slashes-HasElements (next_element (suc k) e follows rest) =
    skip_slashes-HasElements (next_element k e follows rest)

abbrev pub is_none : List (List ℕ) → Bool
is_none [] = true
is_none (_ ∷ _) = false

is_end-skip_slashes :
    {path : List ℕ} {es : List (List ℕ)}
    → HasElements path es
    → is_end (skip_slashes path) ≡ is_none es
unfolding skip_slashes
is_end-skip_slashes (no_elements zero) = refl
is_end-skip_slashes (no_elements (suc k)) = is_end-skip_slashes (no_elements k)
is_end-skip_slashes (next_element zero (is_element ne clean) follows rest) =
    rw (==_ne _ slash ne) refl
is_end-skip_slashes (next_element (suc k) e follows rest) =
    is_end-skip_slashes (next_element k e follows rest)

-- What skipelem is to do with a path of these elements.
abbrev pub Takes : List ℕ → (name : ℕ) → Memory → List (List ℕ) → Type 0
Takes path name m [] = skipelem path name m ≡ none
Takes path name m (e ∷ es) =
    (rest : List ℕ) × (m' : Memory) × (skipelem path name m ≡ some (rest, m'))
    × HasName e name m m'
    × HasElements rest es
    × (is_end rest ≡ is_none es)

-- skipelem of a path copies the first DIRSIZ bytes of its first element to the name, with a 0 behind the
-- element if it is shorter, and changes no other byte; it returns a path with the other elements, which is
-- at its end just if there are none. Without elements it returns null.
pub skipelem-Takes :
    (path : List ℕ) (es : List (List ℕ)) (name : ℕ) (m : Memory)
    → HasElements path es
    → Takes path name m es
unfolding skipelem skip_slashes take_element
skipelem-Takes _ _ name m (no_elements zero) = refl
skipelem-Takes _ _ name m (no_elements (suc k)) = skipelem-Takes _ _ name m (no_elements k)
skipelem-Takes _ _ name m
      (next_element zero {e = c ∷ cs} {rest} (is_element ne clean) follows others) =
    let (first, second) = element-append (c ∷ cs) rest (ne, clean) follows in
    rw (==_ne c slash ne, first, second)
      (
        skip_slashes rest,
        put_name (c ∷ cs) name m,
        refl,
        put_name-HasName (c ∷ cs) name m,
        skip_slashes-HasElements others,
        is_end-skip_slashes others,
      )
skipelem-Takes _ _ name m (next_element zero {e = []} e follows others) = elim e [ ]
skipelem-Takes _ _ name m (next_element (suc k) e follows rest) =
    skipelem-Takes _ _ name m (next_element k e follows rest)

more_slashes :
    {path : List ℕ} {es : List (List ℕ)} → HasElements path es → HasElements (slash ∷ path) es
more_slashes (no_elements k) = no_elements (suc k)
more_slashes (next_element k e follows rest) = next_element (suc k) e follows rest

longer :
    (c : ℕ) {path : List ℕ} {es : List (List ℕ)}
    → c ≢ slash
    → HasElements path es
    → (es' : List (List ℕ)) × HasElements (c ∷ path) es'
longer c ne (no_elements zero) =
    (_, next_element 0 (is_element {cs = []} ne tt) follows_end (no_elements 0))
longer c ne (no_elements (suc k)) =
    (_, next_element 0 (is_element {cs = []} ne tt) follows_slash (no_elements (suc k)))
longer c ne (next_element zero {e = []} e follows rest) = elim e [ ]
longer c ne (next_element zero {e = c' ∷ cs} (is_element ne' clean) follows rest) =
    (_, next_element 0 (is_element {cs = c' ∷ cs} ne (ne', clean)) follows rest)
longer c ne (next_element (suc k) e follows rest) = (
  _,
  next_element 0 (is_element {cs = []} ne tt) follows_slash (next_element (suc k) e follows rest),
)

-- Every path has elements.
pub elements_exist : (path : List ℕ) → (es : List (List ℕ)) × HasElements path es
elements_exist [] = ([], no_elements zero)
elements_exist (c ∷ path) = elim (Bool-cases (c == slash)) [
  | inl s ↦
      let (es, rest) = elements_exist path in
      let same : c ≡ slash = ground arith in rw same (es, more_slashes rest)
  | inr o ↦ let (es, rest) = elements_exist path in longer c (ground arith) rest
]
