-- ===== src/Vm/Translate.antt =====
-- The page table as a function from addresses to entries, and what a write to it changes.
use cs.Prelude.{
  ℕ, ◌+◌, ◌*◌, ◌%◌, ◌^◌, ◌≤◌, ◌<◌, ◌≡◌, refl, ◌∙◌, ap, sym, ◌≢◌, ◌⊎◌, inl, inr, Bool, true, ◌&&◌,
  arith, ◌==◌, Bool-cases, if◌then◌else◌, ltb,
}
use cs.Bytes.{Memory, poke_word, word_at}
use cs.Bytes.Words.{word_at-poke_word, word_at-poke_ne}
use cs.Kalloc.{pgsize}
use cs.Vm.{p2v, pdx, ptx, is_present, pte_addr}

-- The word of the directory for an address, the table that it names, and the entry of the address; an
-- address without a table has the entry 0.
abbrev pub pde_of : Memory → (pgdir va : ℕ) → ℕ
pde_of m pgdir va = word_at m (pgdir + 4 * pdx va)

abbrev pub table_of : Memory → (pgdir va : ℕ) → ℕ
table_of m pgdir va = p2v (pte_addr (pde_of m pgdir va))

abbrev pub pte_of : Memory → (pgdir va : ℕ) → ℕ
pte_of m pgdir va =
    if is_present (pde_of m pgdir va) then word_at m (table_of m pgdir va + 4 * ptx va) else 0

-- The directory, here as a function from addresses to its words, is a page, and each table a page of its
-- own.
pub record IsTree (word : ℕ → ℕ) (pgdir : ℕ) : Type 0 where
  pub aligned : pgdir % pgsize ≡ 0
  pub not_null : (va : ℕ) → is_present (word va) ≡ true → 0 < p2v (pte_addr (word va))
  pub not_directory : (va : ℕ) → is_present (word va) ≡ true → p2v (pte_addr (word va)) ≢ pgdir
  pub not_shared :
      (va vb : ℕ)
      → is_present (word va) ≡ true
      → is_present (word vb) ≡ true
      → p2v (pte_addr (word va)) ≡ p2v (pte_addr (word vb))
      → pdx va ≡ pdx vb

abbrev pub same_page : (va vb : ℕ) → Bool
same_page va vb = (pdx va == pdx vb) && (ptx va == ptx vb)

-- Words of different pages do not overlap, and no more do different words of one.
pub words_apart :
    (p q i j : ℕ)
    → p % pgsize ≡ 0
    → q % pgsize ≡ 0
    → i < 1024
    → j < 1024
    → p ≢ q
    → (p + 4 * i + 4 ≤ q + 4 * j) ⊎ (q + 4 * j + 4 ≤ p + 4 * i)
words_apart p q i j pa qa hi hj ne = elim (Bool-cases (ltb p q)) [
  | inl lt ↦ inl (ground arith)
  | inr ge ↦ inr (ground arith)
]

pub others_apart : (p i j : ℕ) → i ≢ j → (p + 4 * i + 4 ≤ p + 4 * j) ⊎ (p + 4 * j + 4 ≤ p + 4 * i)
others_apart p i j ne = elim (Bool-cases (ltb i j)) [
  | inl lt ↦ inl (ground arith)
  | inr ge ↦ inr (ground arith)
]

pub table_aligned : (e : ℕ) → p2v (pte_addr e) % pgsize ≡ 0
table_aligned e = omega arith

module _ (m : Memory) (pgdir va w : ℕ) (tree : IsTree (pde_of m pgdir) pgdir)
    (here : is_present (pde_of m pgdir va) ≡ true) where
  -- The memory with the entry of `va` written.
  abbrev pub entered : Memory
  entered = poke_word m (table_of m pgdir va + 4 * ptx va) w

  pub entered-pde_of : (vb : ℕ) → pde_of entered pgdir vb ≡ pde_of m pgdir vb
  entered-pde_of vb = word_at-poke_ne m (table_of m pgdir va + 4 * ptx va) (pgdir + 4 * pdx vb) w (
      words_apart (table_of m pgdir va) pgdir (ptx va) (pdx vb) (table_aligned (pde_of m pgdir va))
        tree.aligned (omega arith) (omega arith) (tree.not_directory va here))

  -- The entry in a table of the old directory, in the new memory.
  read_back : (vb : ℕ) → ℕ
  read_back vb =
      if is_present (pde_of m pgdir vb)
      then word_at entered (table_of m pgdir vb + 4 * ptx vb)
      else 0

  read_back-near :
      w < 2 ^ 32
      → (vb : ℕ) → pdx va ≡ pdx vb
      → read_back vb ≡ (if ptx va == ptx vb then w else pte_of m pgdir vb)
  unfolding read_back
  read_back-near small vb same =
      let e : pde_of m pgdir vb ≡ pde_of m pgdir va =
        ap (λ i. word_at m (pgdir + 4 * i)) (sym same) in
      let there : is_present (pde_of m pgdir vb) ≡ true = ap is_present e ∙ here in
      rw there (
        ap (λ z. word_at entered (p2v (pte_addr z) + 4 * ptx vb)) e
        ∙ elim (Bool-cases (ptx va == ptx vb)) [
          | inl k ↦
              let slot : table_of m pgdir va + 4 * ptx vb ≡ table_of m pgdir va + 4 * ptx va =
                ground arith in
              rw k (
                ap (word_at entered) slot
                ∙ word_at-poke_word m (table_of m pgdir va + 4 * ptx va) w small)
          | inr k ↦ rw k (
              word_at-poke_ne m (table_of m pgdir va + 4 * ptx va)
                (table_of m pgdir va + 4 * ptx vb) w
                (others_apart (table_of m pgdir va) (ptx va) (ptx vb) (ground arith))
              ∙ ap (λ z. word_at m (p2v (pte_addr z) + 4 * ptx vb)) (sym e))
        ])

  read_back-far : (vb : ℕ) → pdx va ≢ pdx vb → read_back vb ≡ pte_of m pgdir vb
  unfolding read_back
  read_back-far vb differ = elim (Bool-cases (is_present (pde_of m pgdir vb))) [
    | inr absent ↦ rw absent refl
    | inl there ↦ rw there (
        word_at-poke_ne m (table_of m pgdir va + 4 * ptx va) (table_of m pgdir vb + 4 * ptx vb) w (
          words_apart (table_of m pgdir va) (table_of m pgdir vb) (ptx va) (ptx vb)
            (table_aligned (pde_of m pgdir va)) (table_aligned (pde_of m pgdir vb)) (omega arith)
            (omega arith) (λ e. differ (tree.not_shared va vb here there e))))
  ]

  -- A write to the entry of an address changes the entry of its page, and of no other address.
  pub entered-pte_of :
      w < 2 ^ 32
      → (vb : ℕ) → pte_of entered pgdir vb ≡ (if same_page va vb then w else pte_of m pgdir vb)
  unfolding read_back
  entered-pte_of small vb =
      ap (λ e. if is_present e then word_at entered (p2v (pte_addr e) + 4 * ptx vb) else 0)
        (entered-pde_of vb)
      ∙ elim (Bool-cases (pdx va == pdx vb)) [
        | inl k ↦ rw k (read_back-near small vb (ground arith))
        | inr k ↦ rw k (read_back-far vb (ground arith))
      ]
