-- ===== src/Inode/Path/Name.antt =====
-- The name that skipelem leaves: the element, cut at DIRSIZ, with a final 0 if it is shorter.
use cs.Prelude.{
  ℕ, zero, suc, ◌+◌, ◌-◌, ◌≡◌, ◌∙◌, inl, inr, List, [], ◌∷◌, ◌&&◌, leb, ltb, arith, ◌==◌,
  Bool-cases, if◌then◌else◌, length,
}
use cs.Bytes.{Memory, poke}
use cs.Inode.Directory.{dirsiz}
use cs.Inode.Path.{put_bytes, put_name}

-- Byte `i` of a list, or 0 behind its end.
abbrev pub byte_at : List ℕ → ℕ → ℕ
byte_at [] i = 0
byte_at (c ∷ cs) zero = c
byte_at (c ∷ cs) (suc i) = byte_at cs i

-- The memory with the first DIRSIZ bytes of the element at `name`, and a 0 behind it if it has fewer.
abbrev pub with_name : List ℕ → (name : ℕ) → Memory → Memory
with_name e name m a =
    if leb name a && (ltb a (name + 14) && ltb a (name + length e))
    then byte_at e (a - name)
    else if (a == name + length e) && ltb (length e) 14
    then 0
    else m a

abbrev pub HasName : List ℕ → (name : ℕ) → (m m' : Memory) → Type 0
HasName e name m m' = (a : ℕ) → m' a ≡ with_name e name m a

put_bytes-at :
    (n : ℕ) (cs : List ℕ) (a : ℕ) (m : Memory) (x : ℕ)
    → put_bytes n cs a m x
      ≡ (if leb a x && (ltb x (a + n) && ltb x (a + length cs)) then byte_at cs (x - a) else m x)
unfolding put_bytes
put_bytes-at zero cs a m x = ground arith
put_bytes-at (suc n) [] a m x = ground arith
put_bytes-at (suc n) (c ∷ cs) a m x =
    put_bytes-at n cs (a + 1) (poke m a c) x ∙ (elim (Bool-cases (ltb a x)) [
      | inl k ↦ let next : x - a ≡ suc (x - (a + 1)) = ground arith in rw next (ground arith)
      | inr k ↦ elim (Bool-cases (x == a)) [
        | inl e ↦ let none : x - a ≡ 0 = ground arith in rw none (ground arith)
        | inr o ↦ ground arith
      ]
    ])

pub put_name-HasName : (e : List ℕ) (name : ℕ) (m : Memory) → HasName e name m (put_name e name m)
unfolding put_name
put_name-HasName e name m a = elim (Bool-cases (ltb (length e) dirsiz)) [
  | inl short ↦ rw short (ground (arith, put_bytes-at (length e) e name m a))
  | inr long ↦ rw long (ground (arith, put_bytes-at dirsiz e name m a))
]
