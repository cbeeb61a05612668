-- ===== src/Vm/Copyout/Pieces.antt =====
-- One piece of copyout, and a piece with the rest.
use cs.Prelude.{
  ℕ, ◌+◌, ◌-◌, ◌/◌, ◌%◌, ◌≤◌, ◌<◌, ◌≡◌, refl, ◌∙◌, ap, sym, subst, ◌≢◌, inl, inr, true, ◌&&◌, arith,
  Bool-cases, if◌then◌else◌, ltb, leb,
}
use cs.Bytes.{Memory, memmove}
use cs.Bytes.Move.{memmove-copied}
use cs.Kalloc.{pgsize, round_down}
use cs.Vm.{p2v, pdx, ptx, is_present, is_user, pte_addr}
use cs.Vm.Translate.{pte_of}
use cs.Vm.Copyout.Pages.{frame, place, IsWritable, OnlyIn}

-- The bytes have come to the range, and no other byte has changed.
abbrev pub Copied : (e : ℕ → ℕ) → (va buf len : ℕ) → (m m' : Memory) → Type 0
Copied e va buf len m m' =
    ((i : ℕ) → i < len → m' (place e (va + i)) ≡ m (buf + i))
    × ((a : ℕ) → ((j : ℕ) → j < len → place e (va + j) ≢ a) → m' a ≡ m a)

-- The rest of a range behind `n` bytes.
pub IsWritable-rest :
    (e d : ℕ → ℕ) (pgdir va buf n len : ℕ)
    → n ≤ len
    → IsWritable e d pgdir va buf len
    → IsWritable e d pgdir (va + n) (buf + n) (len - n)
IsWritable-rest e d pgdir va buf n len le w = record {
  present =
      λ i h. subst (λ z. is_present (e z) ≡ true) (sym (shift i)) (w.present (n + i) (omega arith));
  user = λ i h. subst (λ z. is_user (e z) ≡ true) (sym (shift i)) (w.user (n + i) (omega arith));
  not_null = λ i h. subst (λ z. 0 < frame e z) (sym (shift i)) (w.not_null (n + i) (omega arith));
  no_directory =
      λ i h. subst (λ z. frame e z ≢ pgdir) (sym (shift i)) (w.no_directory (n + i) (omega arith));
  no_table = λ i vb h there.
      subst (λ z. frame e z ≢ p2v (pte_addr (d vb))) (sym (shift i))
        (w.no_table (n + i) vb (omega arith) there);
  own_pages = λ i j hi hj same.
      ap (λ z. z / pgsize) (shift i)
      ∙ w.own_pages (n + i) (n + j) (omega arith) (omega arith)
          (ap (frame e) (sym (shift i)) ∙ same ∙ ap (frame e) (shift j))
      ∙ ap (λ z. z / pgsize) (sym (shift j));
  no_buffer = λ i j hi hj same.
      w.no_buffer (n + i) (n + j) (omega arith) (omega arith)
        (ap (frame e) (sym (shift j)) ∙ same ∙ ap round_down (omega arith));
}
  where
    shift : (i : ℕ) → va + n + i ≡ va + (n + i)
    shift i = omega arith

-- One piece, in the page of `va`.
pub piece-Copied :
    (e : ℕ → ℕ) (va buf n : ℕ) (m : Memory)
    → va % pgsize + n ≤ pgsize
    → ((i : ℕ) → i < n → frame e (va + i) ≡ frame e va)
    → OnlyIn (frame e va) m (memmove (frame e va + (va - round_down va)) buf n m)
      × Copied e va buf n m (memmove (frame e va + (va - round_down va)) buf n m)
piece-Copied e va buf n m fit one = (only, (bytes, others))
  where
    p : ℕ
    p = frame e va

    aligned : p % pgsize ≡ 0
    aligned = omega arith

    moved :
        (a : ℕ)
        → memmove (p + (va - round_down va)) buf n m a ≡ (
            if leb (p + va % pgsize) a && ltb a (p + va % pgsize + n)
            then m (buf + (a - (p + va % pgsize)))
            else m a)
    moved a =
        let off : va - round_down va ≡ va % pgsize = omega arith in
        ap (λ o. memmove (p + o) buf n m a) off ∙ memmove-copied (p + va % pgsize) buf n m a

    only : OnlyIn p m (memmove (p + (va - round_down va)) buf n m)
    only a ne = moved a ∙ ground (arith, aligned)

    at_place : (i : ℕ) → i < n → place e (va + i) ≡ p + va % pgsize + i
    at_place i h =
        let low : (va + i) % pgsize ≡ va % pgsize + i = omega arith in
        ap (λ z. z + (va + i) % pgsize) (one i h) ∙ omega (arith, low)

    bytes :
        (i : ℕ)
        → i < n
        → memmove (p + (va - round_down va)) buf n m (place e (va + i)) ≡ m (buf + i)
    bytes i h =
        let inside : (leb (p + va % pgsize) (p + va % pgsize + i)
              && ltb (p + va % pgsize + i) (p + va % pgsize + n))
            ≡ true =
          ground arith in
        let back : p + va % pgsize + i - (p + va % pgsize) ≡ i = omega arith in
        ap (memmove (p + (va - round_down va)) buf n m) (at_place i h)
        ∙ moved (p + va % pgsize + i)
        ∙ rw (inside, back) refl

    others :
        (a : ℕ)
        → ((j : ℕ) → j < n → place e (va + j) ≢ a)
        → memmove (p + (va - round_down va)) buf n m a ≡ m a
    others a ne =
        moved a ∙ elim (Bool-cases (leb (p + va % pgsize) a && ltb a (p + va % pgsize + n))) [
          | inr out ↦ rw out refl
          | inl inside ↦
              let i = a - (p + va % pgsize) in
              let lt : i < n = ground arith in
              let same : p + va % pgsize + i ≡ a = ground arith in
              absurd (ne i lt (at_place i lt ∙ same))
        ]

place-injective :
    (e d : ℕ → ℕ) (pgdir va buf len i j : ℕ)
    → IsWritable e d pgdir va buf len
    → i < len
    → j < len
    → place e (va + i) ≡ place e (va + j)
    → i ≡ j
place-injective e d pgdir va buf len i j w hi hj same =
    let frames : frame e (va + i) ≡ frame e (va + j) = omega (arith, same) in
    let pages : (va + i) / pgsize ≡ (va + j) / pgsize = w.own_pages i j hi hj frames in
    omega (arith, same, frames, pages)

pub Copied-append :
    (e d : ℕ → ℕ) (pgdir va buf n len : ℕ) (m m' m'' : Memory)
    → IsWritable e d pgdir va buf len
    → n ≤ len
    → Copied e va buf n m m'
    → Copied e (va + n) (buf + n) (len - n) m' m''
    → Copied e va buf len m m''
Copied-append e d pgdir va buf n len m m' m'' w le (first, kept) (rest, kept') = (bytes, others)
  where
    later : (j : ℕ) → va + n + j ≡ va + (n + j)
    later j = omega arith

    bytes : (i : ℕ) → i < len → m'' (place e (va + i)) ≡ m (buf + i)
    bytes i h = elim (Bool-cases (ltb i n)) [
      | inl near ↦
          let low : i < n = ground arith in
          kept' (place e (va + i)) (λ j hj same.
            let equal : n + j ≡ i =
              place-injective e d pgdir va buf len (n + j) i w (omega arith) h
                (ap (place e) (sym (later j)) ∙ same) in
            absurd (omega (arith, equal)))
          ∙ first i low
      | inr far ↦
          let high : n ≤ i = ground arith in
          let at_i : va + n + (i - n) ≡ va + i = omega arith in
          let from_i : buf + n + (i - n) ≡ buf + i = omega arith in
          ap (λ z. m'' (place e z)) (sym at_i)
          ∙ rest (i - n) (omega arith)
          ∙ ap m' from_i
          ∙ kept (buf + i)
              (λ j hj same. absurd (w.no_buffer i j h (omega arith) (omega (arith, same))))
    ]

    others : (a : ℕ) → ((j : ℕ) → j < len → place e (va + j) ≢ a) → m'' a ≡ m a
    others a ne =
        kept' a (λ j hj same. ne (n + j) (omega arith) (ap (place e) (sym (later j)) ∙ same))
        ∙ kept a (λ j hj. ne j (omega arith))

pub pte_of-near :
    (m : Memory) (pgdir va vb : ℕ)
    → va / pgsize ≡ vb / pgsize
    → pte_of m pgdir va ≡ pte_of m pgdir vb
pte_of-near m pgdir va vb same =
    let d : pdx va ≡ pdx vb = omega (arith, same) in
    let t : ptx va ≡ ptx vb = omega (arith, same) in rw (d, t) refl
