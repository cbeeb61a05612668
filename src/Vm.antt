-- ===== src/Vm.antt =====
-- Page tables of vm.c, over the memory and the page allocator of kalloc.c. Addresses are the kernel's;
-- an entry of a page table is a word of memory.
pub mod User
pub mod Translate
pub mod Fresh
pub mod Map
pub mod Copyout
pub mod Entry
mod Tests
use Prim.Native.String.{String}
use Prim.Native.Nat.{bit_or}
use cs.Prelude.{
  ℕ, zero, suc, ◌+◌, ◌-◌, ◌*◌, ◌/◌, ◌%◌, ◌^◌, Bool, true, false, not, List, [], ◌∷◌, ◌==◌, leb, ltb,
  if◌then◌else◌,
}
use cs.Prelude.Int.{ℤ, pos, negsuc}
use cs.Prelude.Run.{Cmd, ok, panic, fault, out_of_fuel, pure, fetch, modify, ◌>>=◌, ◌>>◌}
use cs.Bytes.{Memory, poke_word, word_at, memset}
use cs.Kalloc.{pgsize, kernbase, phystop, Kmem, kalloc, kfree, round_down, round_up}
use cs.Proc.Table.{add32, sub32}

abbrev pub p2v : ℕ → ℕ
p2v a = add32 a kernbase

abbrev pub v2p : ℕ → ℕ
v2p a = sub32 a kernbase

abbrev pub pdx : ℕ → ℕ
pdx va = va / 4194304 % 1024

abbrev pub ptx : ℕ → ℕ
ptx va = va / 4096 % 1024

-- `e & PTE_P` and `e & PTE_U`.
abbrev pub is_present : ℕ → Bool
is_present e = not (e % 2 == 0)

abbrev pub is_user : ℕ → Bool
is_user e = not (e / 4 % 2 == 0)

abbrev pub pte_addr : ℕ → ℕ
pte_addr e = round_down e

abbrev pub pte_flags : ℕ → ℕ
pte_flags e = e % pgsize

-- PTE_W and PTE_W|PTE_U.
abbrev pub pte_w : ℕ
pte_w = 2

abbrev pub pte_wu : ℕ
pte_wu = 6

-- `pa | perm | PTE_P`.
unfoldable pub make_pte : (pa perm : ℕ) → ℕ
make_pte pa perm = bit_or (bit_or pa perm) 1

abbrev pub write_word : (a w : ℕ) → Cmd Kmem (Unit {0})
write_word a w = modify (λ s. record s { memory = poke_word s.memory a w })

abbrev pub clear_page : ℕ → Cmd Kmem (Unit {0})
clear_page v = modify (λ s. record s { memory = memset v 0 pgsize s.memory })

-- A new page table for the directory's entry at `pde`.
unfoldable pub new_table : (pde va : ℕ) → Cmd Kmem ℕ
new_table pde va = do
  pgtab ← kalloc
  if pgtab == 0 then pure 0 else (do
    clear_page pgtab
    write_word pde (make_pte (v2p pgtab) pte_wu)
    pure (pgtab + 4 * ptx va))

unfoldable pub walkpgdir : (pgdir va : ℕ) → (alloc : Bool) → Cmd Kmem ℕ
walkpgdir pgdir va alloc = do
  s ← fetch
  let pde = pgdir + 4 * pdx va
  let e = word_at s.memory pde
  if is_present e
      then pure (p2v (pte_addr e) + 4 * ptx va)
      else if not alloc
      then pure 0
      else new_table pde va

-- The loop of mappages at the page `a`, at most `k` rounds.
unfoldable pub map_loop : (pgdir k a last pa perm : ℕ) → Cmd Kmem ℤ
map_loop pgdir zero a last pa perm = λ _. out_of_fuel
map_loop pgdir (suc k) a last pa perm = do
  pte ← walkpgdir pgdir a true
  if pte == 0 then pure (negsuc 0) else (do
    s ← fetch
    if is_present (word_at s.memory pte) then (λ _. panic "remap") else (do
      write_word pte (make_pte pa perm)
      if a == last
          then pure (pos 0)
          else map_loop pgdir k (add32 a pgsize) last (add32 pa pgsize) perm))

unfoldable pub mappages : (pgdir va size pa perm : ℕ) → Cmd Kmem ℤ
unfolding map_loop
mappages pgdir va size pa perm =
    let last = round_down (sub32 (add32 va size) 1) in
    map_loop pgdir (sub32 last (round_down va) / pgsize + 1) (round_down va) last pa perm

-- A row of kmap: the address, the range of physical memory, and the permissions.
pub record Kmap : Type 0 where
  pub virt : ℕ
  pub phys_start : ℕ
  pub phys_end : ℕ
  pub perm : ℕ

abbrev pub extmem : ℕ
extmem = 1048576

abbrev pub devspace : ℕ
devspace = 4261412864

-- kmap; `dat` is the address of the linker's symbol data.
abbrev pub kmap : (dat : ℕ) → List Kmap
kmap dat =
    record { virt = kernbase; phys_start = 0; phys_end = extmem; perm = pte_w }
    ∷ record { virt = kernbase + extmem; phys_start = extmem; phys_end = v2p dat; perm = 0 }
    ∷ record { virt = dat; phys_start = v2p dat; phys_end = phystop; perm = pte_w }
    ∷ record { virt = devspace; phys_start = devspace; phys_end = 0; perm = pte_w }
    ∷ []

abbrev pub is_negative : ℤ → Bool
is_negative (pos _) = false
is_negative (negsuc _) = true

-- The loop of setupkvm over the rows of kmap.
unfoldable pub map_rows : (pgdir : ℕ) → List Kmap → Cmd Kmem ℕ
map_rows pgdir [] = pure pgdir
map_rows pgdir (k ∷ rows) = do
  r ← mappages pgdir k.virt (sub32 k.phys_end k.phys_start) k.phys_start k.perm
  if is_negative r then pure 0 else map_rows pgdir rows

unfoldable pub setupkvm : (dat : ℕ) → Cmd Kmem ℕ
unfolding map_rows
setupkvm dat = do
  pgdir ← kalloc
  if pgdir == 0 then pure 0 else (do
    clear_page pgdir
    if ltb devspace (p2v phystop)
        then (λ _. panic "PHYSTOP too high")
        else map_rows pgdir (kmap dat))
