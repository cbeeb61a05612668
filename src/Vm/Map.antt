-- ===== src/Vm/Map.antt =====
-- mappages of one page enters it in the page table.
use cs.Prelude.{
  ℕ, ◌+◌, ◌*◌, ◌/◌, ◌%◌, ◌^◌, ◌≤◌, ◌<◌, ◌≡◌, refl, ◌∙◌, ap, sym, subst, fun_ext, ◌≢◌, ◌⊎◌, inl, inr,
  Bool, true, false, arith, ◌==◌, ==_ne, ==_refl, Bool-cases, if◌then◌else◌, List,
}
use cs.Prelude.Int.{ℤ, pos, negsuc}
use cs.Prelude.Run.{Cmd, panic, fetch, pure, ◌>>=◌, ◌>>◌, Yields, yields, Yields-bind, ok}
use cs.Bytes.{Memory, poke_word, word_at}
use cs.Proc.Table.{add32, sub32}
use cs.Kalloc.{pgsize, kernbase, Kmem, round_down}
use cs.Kalloc.Chain.{HasPages, first_page, kalloc-HasPages}
use cs.Vm.Entry.{page_entry, make_pte-page}
use cs.Vm.{
  p2v, v2p, pdx, ptx, is_present, pte_addr, pte_wu, make_pte, write_word, clear_page, new_table,
  walkpgdir, map_loop, mappages,
}
use cs.Vm.Translate.{
  pde_of, table_of, pte_of, IsTree, same_page, entered, entered-pde_of, entered-pte_of,
}
use cs.Vm.Fresh.{
  IsFresh, tabled, tabled-pde_of, tabled-pte_of, tabled-IsTree, fresh_present, fresh_table,
}

-- The page table has the same entries as before.
abbrev pub SameEntries : (pgdir : ℕ) → (m m' : Memory) → Type 0
SameEntries pgdir m m' = (vb : ℕ) → pte_of m' pgdir vb ≡ pte_of m pgdir vb

-- What walkpgdir finds for mappages where kalloc would return `next`: no memory for a table, or the place
-- of the entry.
abbrev Walked : Memory → (pgdir va next : ℕ) → ℕ → Kmem → Type 0
Walked m pgdir va next r t =
    IsTree (pde_of t.memory pgdir) pgdir
    × SameEntries pgdir m t.memory
    × (((r ≡ 0) × (next ≡ 0))
        ⊎ ((is_present (pde_of t.memory pgdir va) ≡ true)
            × (r ≡ table_of t.memory pgdir va + 4 * ptx va)))

pub walkpgdir-there :
    (s : Kmem) (pgdir va : ℕ) (alloc : Bool)
    → is_present (pde_of s.memory pgdir va) ≡ true
    → walkpgdir pgdir va alloc s ≡ ok (table_of s.memory pgdir va + 4 * ptx va) s
unfolding walkpgdir
walkpgdir-there s pgdir va alloc there = rw there refl

-- The free pages are no part of the page table.
pub record Spare (m : Memory) (pgdir r : ℕ) : Type 0 where
  pub high : kernbase ≤ r
  pub page : r % pgsize ≡ 0
  pub fits : r < 2 ^ 32
  pub no_directory : pgdir ≢ r
  pub no_table : (vb : ℕ) → is_present (pde_of m pgdir vb) ≡ true → table_of m pgdir vb ≢ r

-- The rest of new_table with the page that kalloc has returned.
new_table_with : (pgdir va : ℕ) → ℕ → Cmd Kmem ℕ
new_table_with pgdir va pgtab = if pgtab == 0 then pure 0 else (do
  clear_page pgtab
  write_word (pgdir + 4 * pdx va) (make_pte (v2p pgtab) pte_wu)
  pure (pgtab + 4 * ptx va))

new_table_with-Walked :
    (t : Kmem) (pgdir va r : ℕ)
    → IsTree (pde_of t.memory pgdir) pgdir
    → is_present (pde_of t.memory pgdir va) ≡ false
    → (r ≢ 0 → Spare t.memory pgdir r)
    → Yields (Walked t.memory pgdir va r) (new_table_with pgdir va r t)
unfolding new_table_with
new_table_with-Walked t pgdir va r tree absent spare = elim (Bool-cases (r == 0)) [
  | inl none ↦ rw none (yields (tree, λ vb. refl, inl (refl, ground arith)))
  | inr some ↦
      let sp : Spare t.memory pgdir r = spare (ground arith) in
      let fresh : IsFresh t.memory pgdir va r = record {
        absent = absent;
        page = sp.page;
        high = sp.high;
        fits = sp.fits;
        no_directory = sp.no_directory;
        no_table = sp.no_table;
      } in
      let m = tabled t.memory pgdir va r tree fresh in
      let word : pde_of m pgdir va ≡ page_entry (v2p r) pte_wu =
        tabled-pde_of t.memory pgdir va r tree fresh va ∙ rw (==_refl (pdx va)) refl in
      let word_is : make_pte (v2p r) pte_wu ≡ page_entry (v2p r) pte_wu =
        make_pte-page (v2p r) pte_wu (omega (arith, sp.page, sp.high, sp.fits)) (omega arith) in
      rw (some, word_is)
        (yields (
          tabled-IsTree t.memory pgdir va r tree fresh,
          tabled-pte_of t.memory pgdir va r tree fresh,
          inr (
            ap is_present word ∙ fresh_present t.memory pgdir va r tree fresh,
            ap (λ z. z + 4 * ptx va)
                (sym
                  (ap (λ z. p2v (pte_addr z)) word ∙ fresh_table t.memory pgdir va r tree fresh)),
          ),
        ))
]

walkpgdir-Walked :
    (s : Kmem) (pgdir va : ℕ) (ps : List ℕ)
    → IsTree (pde_of s.memory pgdir) pgdir
    → HasPages s ps
    → (first_page ps ≢ 0 → Spare s.memory pgdir (first_page ps))
    → Yields (Walked s.memory pgdir va (first_page ps)) (walkpgdir pgdir va true s)
unfolding walkpgdir new_table new_table_with
walkpgdir-Walked s pgdir va ps tree pages spare =
    elim (Bool-cases (is_present (pde_of s.memory pgdir va))) [
      | inl there ↦ rw there (yields (tree, λ vb. refl, inr (there, refl)))
      | inr absent ↦ rw absent (
          Yields-bind (kalloc-HasPages s ps pages) λ r t (first, memory, _).
            subst (λ z. Yields (Walked s.memory pgdir va z) (new_table_with pgdir va r t)) first
              (subst (λ m. Yields (Walked m pgdir va r) (new_table_with pgdir va r t)) memory
                (new_table_with-Walked t pgdir va r
                  (subst (λ m. IsTree (pde_of m pgdir) pgdir) (sym memory) tree)
                  (ap (λ m. is_present (pde_of m pgdir va)) memory ∙ absent)
                  (λ ne.
                    subst (λ m. Spare m pgdir r) (sym memory)
                      (subst (λ z. Spare s.memory pgdir z) (sym first)
                        (spare (λ e. ne (first ∙ e))))))))
    ]

mappages-one :
    (pgdir va pa perm : ℕ)
    → va % pgsize ≡ 0
    → va < kernbase
    → mappages pgdir va pgsize pa perm ≡ map_loop pgdir 1 va va pa perm
unfolding mappages
mappages-one pgdir va pa perm aligned low =
    let last : round_down (sub32 (add32 va pgsize) 1) ≡ va = omega arith in
    let first : round_down va ≡ va = omega arith in
    let rounds : sub32 va va / pgsize + 1 ≡ 1 = omega arith in cc (last, first, rounds)

-- The page table with one more page, or the one of before.
abbrev pub Mapped : Kmem → (pgdir va pte next : ℕ) → ℤ → Kmem → Type 0
Mapped s pgdir va pte next r t =
    IsTree (pde_of t.memory pgdir) pgdir
    × (((r ≡ negsuc 0) × (next ≡ 0) × SameEntries pgdir s.memory t.memory)
        ⊎ ((r ≡ pos 0)
            × ((vb : ℕ)
                → pte_of t.memory pgdir vb
                  ≡ (if same_page va vb then pte else pte_of s.memory pgdir vb))))

-- The round of mappages for its only page, with what walkpgdir returns.
map_entry : (pgdir va pa perm pte : ℕ) → Cmd Kmem ℤ
map_entry pgdir va pa perm pte = if pte == 0 then pure (negsuc 0) else (do
  s ← fetch
  if is_present (word_at s.memory pte) then (λ _. panic "remap") else (do
    write_word pte (make_pte pa perm)
    if va == va
        then pure (pos 0)
        else map_loop pgdir 0 (add32 va pgsize) va (add32 pa pgsize) perm))

map_entry-Mapped :
    (s : Kmem) (pgdir va pa perm next r : ℕ) (t : Kmem)
    → is_present (pte_of s.memory pgdir va) ≡ false
    → pa % pgsize ≡ 0
    → pa < 2 ^ 32
    → perm < pgsize
    → Walked s.memory pgdir va next r t
    → Yields (Mapped s pgdir va (page_entry pa perm) next) (map_entry pgdir va pa perm r t)
unfolding map_entry
map_entry-Mapped s pgdir va pa perm next r t absent page fits low (tree, same, inl (none, empty)) =
    rw none (yields (tree, inl (refl, empty, same)))
map_entry-Mapped s pgdir va pa perm next r t absent page fits low (tree, same, inr (there, place)) =
    let some : 0 < r = omega (arith, place, tree.not_null va there) in
    let here : pte_of t.memory pgdir va ≡ word_at t.memory r =
      rw there (ap (word_at t.memory) (sym place)) in
    let free : is_present (word_at t.memory r) ≡ false =
      ap is_present (sym here ∙ same va) ∙ absent in
    let small : page_entry pa perm < 2 ^ 32 = omega (arith, page, fits, low) in
    let m = poke_word t.memory r (page_entry pa perm) in
    let e : entered t.memory pgdir va (page_entry pa perm) tree there ≡ m =
      ap (λ z. poke_word t.memory z (page_entry pa perm)) (sym place) in
    rw (==_ne r 0 (omega arith), free, ==_refl va, make_pte-page pa perm page low)
      (yields (
        subst (λ m. IsTree (pde_of m pgdir) pgdir) e
            (subst (λ f. IsTree f pgdir)
              (sym (fun_ext (entered-pde_of t.memory pgdir va (page_entry pa perm) tree there)))
              tree),
        inr (
          refl,
          λ vb.
              ap (λ m. pte_of m pgdir vb) (sym e)
              ∙ entered-pte_of t.memory pgdir va (page_entry pa perm) tree there small vb
              ∙ ap (λ z. if same_page va vb then page_entry pa perm else z) (same vb),
        ),
      ))

-- mappages of a page below KERNBASE that is not mapped to a page of physical memory, with permissions of at
-- most 12 bits and free pages apart from the page table: it returns 0, and the page's entry is the physical
-- address plus the permissions with the bit PTE_P set, and all other entries are as they were; or there was no memory for a page table, and it returns -1 with all entries as
-- they were.
pub mappages-Mapped :
    (s : Kmem) (pgdir va pa perm : ℕ) (ps : List ℕ)
    → IsTree (pde_of s.memory pgdir) pgdir
    → HasPages s ps
    → (first_page ps ≢ 0 → Spare s.memory pgdir (first_page ps))
    → va % pgsize ≡ 0
    → va < kernbase
    → pa % pgsize ≡ 0
    → pa < 2 ^ 32
    → perm < pgsize
    → is_present (pte_of s.memory pgdir va) ≡ false
    → Yields
        (Mapped s pgdir va (pa + (perm / 2 * 2 + 1)) (first_page ps))
        (mappages pgdir va pgsize pa perm s)
unfolding map_loop map_entry
mappages-Mapped s pgdir va pa perm ps tree pages spare aligned low page fits flags absent =
    subst
      (λ (m : Cmd Kmem ℤ). Yields (Mapped s pgdir va (page_entry pa perm) (first_page ps)) (m s))
      (sym (mappages-one pgdir va pa perm aligned low))
      (Yields-bind (walkpgdir-Walked s pgdir va ps tree pages spare) λ r t walked.
        map_entry-Mapped s pgdir va pa perm (first_page ps) r t absent page fits flags walked)
