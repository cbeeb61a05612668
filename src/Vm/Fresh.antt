-- ===== src/Vm/Fresh.antt =====
-- A new page table, all zeros, changes no entry of an address.
use cs.Prelude.{
  ℕ, ◌+◌, ◌*◌, ◌%◌, ◌^◌, ◌≤◌, ◌<◌, ◌≡◌, refl, ◌∙◌, ap, sym, subst, fun_ext, ◌≢◌, ◌⊎◌, inl, inr,
  true, false, arith, ◌==◌, Bool-cases, if◌then◌else◌,
}
use cs.Bytes.{Memory, poke_word, word_at, memset}
use cs.Bytes.Words.{word_at-poke_word, word_at-poke_ne}
use cs.Bytes.Fill.{memset-filled}
use cs.Kalloc.{pgsize, kernbase}
use cs.Vm.Entry.{page_entry}
use cs.Vm.{p2v, v2p, pdx, ptx, is_present, pte_addr, pte_wu}
use cs.Vm.Translate.{pde_of, table_of, pte_of, IsTree, words_apart, others_apart, table_aligned}

-- A word of a page that is cleared, and a word of another page.
cleared_word : (m : Memory) (r i : ℕ) → i < 1024 → word_at (memset r 0 pgsize m) (r + 4 * i) ≡ 0
unfolding word_at
cleared_word m r i small =
    rw
      (
        memset-filled r 0 pgsize m (r + 4 * i),
        memset-filled r 0 pgsize m (r + 4 * i + 1),
        memset-filled r 0 pgsize m (r + 4 * i + 2),
        memset-filled r 0 pgsize m (r + 4 * i + 3),
      )
      (ground arith)

other_word :
    (m : Memory) (r p i : ℕ)
    → r % pgsize ≡ 0
    → p % pgsize ≡ 0
    → i < 1024
    → p ≢ r
    → word_at (memset r 0 pgsize m) (p + 4 * i) ≡ word_at m (p + 4 * i)
unfolding word_at
other_word m r p i ra pa small ne =
    rw
      (
        outside (4 * i) (omega arith),
        memset-filled r 0 pgsize m (p + 4 * i + 1),
        memset-filled r 0 pgsize m (p + 4 * i + 2),
        memset-filled r 0 pgsize m (p + 4 * i + 3),
      )
      (ground arith)
  where
    outside : (x : ℕ) → x < pgsize → memset r 0 pgsize m (p + x) ≡ m (p + x)
    outside x lt = memset-filled r 0 pgsize m (p + x) ∙ ground arith

-- What is known of the page `r` for the new table of the address `va`.
pub record IsFresh (m : Memory) (pgdir va r : ℕ) : Type 0 where
  pub absent : is_present (pde_of m pgdir va) ≡ false
  pub page : r % pgsize ≡ 0
  pub high : kernbase ≤ r
  pub fits : r < 2 ^ 32
  pub no_directory : pgdir ≢ r
  pub no_table : (vb : ℕ) → is_present (pde_of m pgdir vb) ≡ true → table_of m pgdir vb ≢ r

module _ (m : Memory) (pgdir va r : ℕ) (tree : IsTree (pde_of m pgdir) pgdir)
    (fresh : IsFresh m pgdir va r) where
  abbrev pub tabled : Memory
  tabled = poke_word (memset r 0 pgsize m) (pgdir + 4 * pdx va) (page_entry (v2p r) pte_wu)

  pub fresh_table : p2v (pte_addr (page_entry (v2p r) pte_wu)) ≡ r
  fresh_table = omega (arith, fresh.page, fresh.high, fresh.fits)

  pub tabled-pde_of :
      (vb : ℕ)
      → pde_of tabled pgdir vb
        ≡ (if pdx va == pdx vb then page_entry (v2p r) pte_wu else pde_of m pgdir vb)
  tabled-pde_of vb = elim (Bool-cases (pdx va == pdx vb)) [
    | inl k ↦
        let same : pgdir + 4 * pdx vb ≡ pgdir + 4 * pdx va = ground arith in
        rw k (
          ap (word_at tabled) same
          ∙ word_at-poke_word (memset r 0 pgsize m) (pgdir + 4 * pdx va) _
              (omega (arith, fresh.fits, fresh.high, fresh.page)))
    | inr k ↦ rw k (
        word_at-poke_ne (memset r 0 pgsize m) (pgdir + 4 * pdx va) (pgdir + 4 * pdx vb) _
          (others_apart pgdir (pdx va) (pdx vb) (ground arith))
        ∙ other_word m r pgdir (pdx vb) fresh.page tree.aligned (omega arith) fresh.no_directory)
  ]

  pub fresh_present : is_present (page_entry (v2p r) pte_wu) ≡ true
  fresh_present = ground (arith, fresh.page, fresh.high)

  -- The entry of an address under a word `e` of the directory, in the new memory.
  entry_under : (e vb : ℕ) → ℕ
  entry_under e vb = if is_present e then word_at tabled (p2v (pte_addr e) + 4 * ptx vb) else 0

  under_fresh : (vb : ℕ) → entry_under (page_entry (v2p r) pte_wu) vb ≡ 0
  unfolding entry_under
  under_fresh vb =
      rw (fresh_present, fresh_table)
        (word_at-poke_ne (memset r 0 pgsize m) (pgdir + 4 * pdx va) (r + 4 * ptx vb) _ (
            words_apart pgdir r (pdx va) (ptx vb) tree.aligned fresh.page (omega arith)
              (omega arith) fresh.no_directory)
          ∙ cleared_word m r (ptx vb) (omega arith))

  under_old : (vb : ℕ) → entry_under (pde_of m pgdir vb) vb ≡ pte_of m pgdir vb
  unfolding entry_under
  under_old vb = elim (Bool-cases (is_present (pde_of m pgdir vb))) [
    | inr absent ↦ rw absent refl
    | inl there ↦ rw there (
        word_at-poke_ne (memset r 0 pgsize m) (pgdir + 4 * pdx va)
          (table_of m pgdir vb + 4 * ptx vb) _
          (words_apart pgdir (table_of m pgdir vb) (pdx va) (ptx vb) tree.aligned
            (table_aligned (pde_of m pgdir vb)) (omega arith) (omega arith)
            (λ e. tree.not_directory vb there (sym e)))
        ∙ other_word m r (table_of m pgdir vb) (ptx vb) fresh.page
            (table_aligned (pde_of m pgdir vb)) (omega arith) (fresh.no_table vb there))
  ]

  absent_near : (vb : ℕ) → pdx va ≡ pdx vb → pte_of m pgdir vb ≡ 0
  absent_near vb same =
      let e : pde_of m pgdir vb ≡ pde_of m pgdir va =
        ap (λ i. word_at m (pgdir + 4 * i)) (sym same) in
      let none : is_present (pde_of m pgdir vb) ≡ false = ap is_present e ∙ fresh.absent in
      rw none refl

  -- The new table leaves the entry of every address as it was.
  pub tabled-pte_of : (vb : ℕ) → pte_of tabled pgdir vb ≡ pte_of m pgdir vb
  unfolding entry_under
  tabled-pte_of vb =
      ap (λ e. entry_under e vb) (tabled-pde_of vb) ∙ elim (Bool-cases (pdx va == pdx vb)) [
        | inl k ↦ rw k (under_fresh vb ∙ sym (absent_near vb (ground arith)))
        | inr k ↦ rw k (under_old vb)
      ]

  -- The directory's words, with the new one.
  word : ℕ → ℕ
  word vb = if pdx va == pdx vb then page_entry (v2p r) pte_wu else pde_of m pgdir vb

  abbrev WordCases : ℕ → Type 0
  WordCases vb =
      ((pdx va ≡ pdx vb) × (p2v (pte_addr (word vb)) ≡ r)) ⊎ (word vb ≡ pde_of m pgdir vb)

  word-cases : (vb : ℕ) → WordCases vb
  unfolding word
  word-cases vb = elim (Bool-cases (pdx va == pdx vb)) [
    | inl k ↦ rw k (inl (ground arith, fresh_table))
    | inr k ↦ rw k (inr refl)
  ]

  old_not_fresh :
      (vb : ℕ)
      → is_present (word vb) ≡ true
      → word vb ≡ pde_of m pgdir vb
      → p2v (pte_addr (word vb)) ≢ r
  old_not_fresh vb there e =
      subst (λ z. p2v (pte_addr z) ≢ r) (sym e) (fresh.no_table vb (ap is_present (sym e) ∙ there))

  shared :
      (vb vc : ℕ)
      → is_present (word vb) ≡ true
      → is_present (word vc) ≡ true
      → p2v (pte_addr (word vb)) ≡ p2v (pte_addr (word vc))
      → WordCases vb
      → WordCases vc
      → pdx vb ≡ pdx vc
  shared vb vc b c same (inl (x, _)) (inl (y, _)) = sym x ∙ y
  shared vb vc b c same (inl (_, x)) (inr y) = absurd (old_not_fresh vc c y (sym same ∙ x))
  shared vb vc b c same (inr x) (inl (_, y)) = absurd (old_not_fresh vb b x (same ∙ y))
  shared vb vc b c same (inr x) (inr y) =
      tree.not_shared vb vc (ap is_present (sym x) ∙ b) (ap is_present (sym y) ∙ c)
        (ap (λ z. p2v (pte_addr z)) (sym x) ∙ same ∙ ap (λ z. p2v (pte_addr z)) y)

  word-IsTree : IsTree word pgdir
  word-IsTree = record {
    aligned = tree.aligned;
    not_null = λ vb there. elim (word-cases vb) [
      | inl (_, e) ↦ omega (arith, e, fresh.high)
      | inr e ↦
          subst (λ z. 0 < p2v (pte_addr z)) (sym e)
            (tree.not_null vb (ap is_present (sym e) ∙ there))
    ];
    not_directory = λ vb there. elim (word-cases vb) [
      | inl (_, e) ↦ λ d. fresh.no_directory (sym d ∙ e)
      | inr e ↦
          subst (λ z. p2v (pte_addr z) ≢ pgdir) (sym e)
            (tree.not_directory vb (ap is_present (sym e) ∙ there))
    ];
    not_shared = λ vb vc b c same. shared vb vc b c same (word-cases vb) (word-cases vc);
  }

  pub tabled-IsTree : IsTree (pde_of tabled pgdir) pgdir
  unfolding word
  tabled-IsTree = subst (λ f. IsTree f pgdir) (sym (fun_ext tabled-pde_of)) word-IsTree
