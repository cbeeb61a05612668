-- ===== src/Vm/Copyout/Pages.antt =====
-- The pages of a user range, and what a write to them leaves of the page table.
use cs.Prelude.{
  ℕ, ◌+◌, ◌*◌, ◌/◌, ◌%◌, ◌<◌, ◌≡◌, refl, ◌∙◌, ap, fun_ext, ◌≢◌, inl, inr, true, false, arith, ==_ne,
  Bool-cases, if◌then◌else◌,
}
use cs.Prelude.Run.{ok}
use cs.Bytes.{Memory, word_at}
use cs.Kalloc.{pgsize, Kmem, round_down}
use cs.Vm.{p2v, pdx, ptx, is_present, is_user, pte_addr, walkpgdir}
use cs.Vm.User.{uva2ka}
use cs.Vm.Translate.{pde_of, table_of, pte_of, IsTree, table_aligned}
use cs.Vm.Map.{walkpgdir-there}

-- The kernel's address of the page of a user address, and of the byte itself, by the entries `e` of the
-- page table.
abbrev pub frame : (e : ℕ → ℕ) → ℕ → ℕ
frame e va = p2v (pte_addr (e va))

abbrev pub place : (e : ℕ → ℕ) → ℕ → ℕ
place e va = frame e va + va % pgsize

-- The range is the user's, in pages of its own: they are no part of the page table, with the entries `e`
-- and the words `d` of the directory, and do not hold the bytes at `buf`.
pub record IsWritable (e d : ℕ → ℕ) (pgdir va buf len : ℕ) : Type 0 where
  pub present : (i : ℕ) → i < len → is_present (e (va + i)) ≡ true
  pub user : (i : ℕ) → i < len → is_user (e (va + i)) ≡ true
  pub not_null : (i : ℕ) → i < len → 0 < frame e (va + i)
  pub no_directory : (i : ℕ) → i < len → frame e (va + i) ≢ pgdir
  pub no_table :
      (i vb : ℕ) → i < len → is_present (d vb) ≡ true → frame e (va + i) ≢ p2v (pte_addr (d vb))
  pub own_pages :
      (i j : ℕ)
      → i < len
      → j < len
      → frame e (va + i) ≡ frame e (va + j)
      → (va + i) / pgsize ≡ (va + j) / pgsize
  pub no_buffer : (i j : ℕ) → i < len → j < len → frame e (va + j) ≢ round_down (buf + i)

-- Memory that has changed only in the page at `p`.
abbrev pub OnlyIn : (p : ℕ) → (m m' : Memory) → Type 0
OnlyIn p m m' = (a : ℕ) → p ≢ round_down a → m' a ≡ m a

OnlyIn-word :
    (p q i : ℕ) (m m' : Memory)
    → q % pgsize ≡ 0
    → i < 1024
    → p ≢ q
    → OnlyIn p m m'
    → word_at m' (q + 4 * i) ≡ word_at m (q + 4 * i)
unfolding word_at
OnlyIn-word p q i m m' qa lt ne only =
    rw
      (
        at_byte (q + 4 * i) (omega arith),
        at_byte (q + 4 * i + 1) (omega arith),
        at_byte (q + 4 * i + 2) (omega arith),
        at_byte (q + 4 * i + 3) (omega arith),
      )
      refl
  where
    at_byte : (a : ℕ) → round_down a ≡ q → m' a ≡ m a
    at_byte a page = only a (λ e. ne (e ∙ page))

-- A user page is no part of the page table, so that a write to it changes no entry.
pub pte_of-OnlyIn :
    (m m' : Memory) (pgdir p : ℕ)
    → IsTree (pde_of m pgdir) pgdir
    → p ≢ pgdir
    → ((vb : ℕ) → is_present (pde_of m pgdir vb) ≡ true → p ≢ table_of m pgdir vb)
    → OnlyIn p m m'
    → (pde_of m' pgdir ≡ pde_of m pgdir) × (pte_of m' pgdir ≡ pte_of m pgdir)
pte_of-OnlyIn m m' pgdir p tree nd nt only = (fun_ext words, fun_ext entries)
  where
    words : (vb : ℕ) → pde_of m' pgdir vb ≡ pde_of m pgdir vb
    words vb = OnlyIn-word p pgdir (pdx vb) m m' tree.aligned (omega arith) nd only

    entries : (vb : ℕ) → pte_of m' pgdir vb ≡ pte_of m pgdir vb
    entries vb =
        ap (λ e. if is_present e then word_at m' (p2v (pte_addr e) + 4 * ptx vb) else 0) (words vb)
        ∙ elim (Bool-cases (is_present (pde_of m pgdir vb))) [
          | inr absent ↦ rw absent refl
          | inl there ↦ rw there (
              OnlyIn-word p (table_of m pgdir vb) (ptx vb) m m' (table_aligned (pde_of m pgdir vb))
                (omega arith) (nt vb there) only)
        ]

-- The table and the entry of a user address.
present-walk :
    (m : Memory) (pgdir va : ℕ)
    → is_present (pte_of m pgdir va) ≡ true
    → (is_present (pde_of m pgdir va) ≡ true)
      × (word_at m (table_of m pgdir va + 4 * ptx va) ≡ pte_of m pgdir va)
present-walk m pgdir va there = elim (Bool-cases (is_present (pde_of m pgdir va))) [
  | inl yes_ ↦ rw yes_ (refl, refl)
  | inr none ↦ absurd (ground (arith, there, none))
]

same_walk : (pgdir va : ℕ) → walkpgdir pgdir (round_down va) false ≡ walkpgdir pgdir va false
unfolding walkpgdir
same_walk pgdir va =
    let d : pdx (round_down va) ≡ pdx va = omega arith in
    let t : ptx (round_down va) ≡ ptx va = omega arith in rw (d, t) refl

pub uva2ka-frame :
    (s : Kmem) (pgdir va : ℕ)
    → IsTree (pde_of s.memory pgdir) pgdir
    → is_present (pte_of s.memory pgdir va) ≡ true
    → is_user (pte_of s.memory pgdir va) ≡ true
    → uva2ka pgdir (round_down va) s ≡ ok (frame (pte_of s.memory pgdir) va) s
unfolding uva2ka
uva2ka-frame s pgdir va tree present user =
    let (there, same) = present-walk s.memory pgdir va present in
    let some : 0 < table_of s.memory pgdir va = tree.not_null va there in
    let present' : is_present (word_at s.memory (table_of s.memory pgdir va + 4 * ptx va)) ≡ true =
      ap is_present same ∙ present in
    let user' : is_user (word_at s.memory (table_of s.memory pgdir va + 4 * ptx va)) ≡ true =
      ap is_user same ∙ user in
    rw
      (
        same_walk pgdir va,
        walkpgdir-there s pgdir va false there,
        ==_ne (table_of s.memory pgdir va + 4 * ptx va) 0 (omega arith),
        present',
        user',
      )
      (ap (λ z. ok (p2v (pte_addr z)) s) same)
