-- ===== src/Vm/Tests.antt =====
-- The theorems about page tables on an empty directory and one free page.
use cs.Prelude.{
  ℕ, ◌+◌, ◌*◌, ◌<◌, ◌≡◌, ◌≢◌, refl, ap, sym, ◌∙◌, inl, inr, true, false, [], ◌∷◌, arith, ◌==◌,
  Bool-cases, if◌then◌else◌,
}
use cs.Prelude.Int.{pos}
use cs.Prelude.Run.{Yields}
use cs.Bytes.{Memory, word_at}
use cs.Kalloc.{pgsize, Kmem}
use cs.Kalloc.Chain.{HasPages}
use cs.Vm.{p2v, pdx, ptx, pte_addr, is_present, is_user, mappages}
use cs.Vm.User.{copyout}
use cs.Vm.Copyout.{copyout-Copied}
use cs.Vm.Copyout.Pages.{frame, IsWritable}
use cs.Vm.Copyout.Pieces.{Copied}
use cs.Vm.Translate.{pde_of, pte_of, table_of, IsTree}
use cs.Vm.Map.{Spare, Mapped, mappages-Mapped}

abbrev directory : ℕ
directory = 2147487744

abbrev spare_page : ℕ
spare_page = 2147491840

abbrev zeros : Memory
zeros _ = 0

abbrev one_page : Kmem
one_page = record {
  memory = zeros;
  held = record { cpu = record { interrupts = true; ncli = 0; intena = false }; holding = false };
  use_lock = true;
  freelist = spare_page;
  end = 2147483648;
}

pages : HasPages one_page (spare_page ∷ [])
unfolding word_at
pages = record {
  chain = (refl, omega arith, omega arith, refl, refl);
  lock_free = record { not_held = refl; no_cli = refl };
}

nothing : (va : ℕ) → is_present (pde_of zeros directory va) ≢ true
unfolding word_at
nothing va e = absurd cc

empty-IsTree : IsTree (pde_of zeros directory) directory
empty-IsTree = record {
  aligned = refl;
  not_null = λ va there. absurd (nothing va there);
  not_directory = λ va there. absurd (nothing va there);
  not_shared = λ va vb there _ _. absurd (nothing va there);
}

spare : Spare zeros directory spare_page
spare = record {
  high = omega arith;
  page = refl;
  fits = omega arith;
  no_directory = omega arith;
  no_table = λ vb there. absurd (nothing vb there);
}

mappages-Mapped_example :
    Yields
      (Mapped one_page directory 8192 16391 spare_page)
      (mappages directory 8192 pgsize 16384 6 one_page)
unfolding word_at
mappages-Mapped_example =
    mappages-Mapped one_page directory 8192 16384 6 (spare_page ∷ []) empty-IsTree pages
      (λ _. spare) refl (omega arith) refl (omega arith) (omega arith) refl

-- A directory whose first table maps page 0 to the physical page at 12288, for the user.
abbrev mapped : Memory
mapped a =
    if a == directory
    then 7
    else if a == directory + 1
    then 32
    else if a == spare_page
    then 7
    else if a == spare_page + 1
    then 48
    else 0

directory_word :
    (i : ℕ) → i < 1024 → word_at mapped (directory + 4 * i) ≡ (if i == 0 then 8199 else 0)
unfolding word_at
directory_word i lt = ground arith

mapped_word : (va : ℕ) → pde_of mapped directory va ≡ (if pdx va == 0 then 8199 else 0)
mapped_word va = directory_word (pdx va) (omega arith)

first_entry : (va : ℕ) → va < 4096 → pte_of mapped directory va ≡ 12295
unfolding word_at
first_entry va lt =
    let d : pdx va ≡ 0 = omega arith in let t : ptx va ≡ 0 = omega arith in rw (d, t) refl

one_table :
    (va : ℕ)
    → is_present (pde_of mapped directory va) ≡ true
    → (pdx va ≡ 0) × (table_of mapped directory va ≡ spare_page)
one_table va there = elim (Bool-cases (pdx va == 0)) [
  | inl z ↦
      let e : pde_of mapped directory va ≡ 8199 = mapped_word va ∙ rw z refl in
      (ground arith, ap (λ w. p2v (pte_addr w)) e)
  | inr other ↦
      let e : pde_of mapped directory va ≡ 0 = mapped_word va ∙ rw other refl in
      absurd (cc (there, ap is_present e))
]

mapped-IsTree : IsTree (pde_of mapped directory) directory
mapped-IsTree = record {
  aligned = refl;
  not_null = λ va there. omega (arith, (one_table va there).1);
  not_directory = λ va there e. omega (arith, (one_table va there).1, e);
  not_shared = λ va vb there there' e. (one_table va there).0 ∙ sym ((one_table vb there').0);
}

one_frame : (i : ℕ) → i < 5 → frame (pte_of mapped directory) (100 + i) ≡ 2147495936
one_frame i lt = ap (λ w. p2v (pte_addr w)) (first_entry (100 + i) (omega arith))

mapped-IsWritable :
    IsWritable (pte_of mapped directory) (pde_of mapped directory) directory 100 2147504128 5
mapped-IsWritable = record {
  present = λ i h. ap is_present (first_entry (100 + i) (omega arith));
  user = λ i h. ap is_user (first_entry (100 + i) (omega arith));
  not_null = λ i h. omega (arith, one_frame i h);
  no_directory = λ i h e. omega (arith, one_frame i h, e);
  no_table = λ i vb h there e. omega (arith, one_frame i h, (one_table vb there).1, e);
  own_pages = λ i j hi hj e. omega arith;
  no_buffer = λ i j hi hj e. omega (arith, one_frame j hj, e);
}

copyout-Copied_example :
    Yields
      (λ r t.
        (r ≡ pos 0)
        × (pte_of t.memory directory ≡ pte_of mapped directory)
        × Copied (pte_of mapped directory) 100 2147504128 5 mapped t.memory)
      (copyout directory 100 2147504128 5 (record one_page { memory = mapped }))
copyout-Copied_example =
    copyout-Copied (record one_page { memory = mapped }) directory 100 2147504128 5 mapped-IsTree
      mapped-IsWritable (omega arith)
