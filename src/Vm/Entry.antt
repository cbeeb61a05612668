-- ===== src/Vm/Entry.antt =====
-- The entry for a page: its address and, in the low bits, the permissions and PTE_P.
use Prim.Native.Nat.{bit_or}
use cs.Prelude.{ℕ, ◌+◌, ◌*◌, ◌/◌, ◌%◌, ◌^◌, ◌<◌, ◌≡◌, ap, ◌∙◌, arith}
use cs.Prelude.Bits.{bit_or-sum, bit_or-one}
use cs.Kalloc.{pgsize}
use cs.Vm.{make_pte}

abbrev pub page_entry : (pa perm : ℕ) → ℕ
page_entry pa perm = pa + (perm / 2 * 2 + 1)

pub make_pte-page :
    (pa perm : ℕ) → pa % pgsize ≡ 0 → perm < pgsize → make_pte pa perm ≡ page_entry pa perm
unfolding make_pte
make_pte-page pa perm aligned small =
    let whole : pa ≡ pa / pgsize * 2 ^ 12 = omega (arith, aligned) in
    let flags : bit_or pa perm ≡ pa + perm =
      ap (λ z. bit_or z perm) whole
      ∙ bit_or-sum 12 (pa / pgsize) perm small
      ∙ ap (λ z. z + perm) (omega (arith, aligned)) in
    ap (λ z. bit_or z 1) flags ∙ bit_or-one (pa + perm) ∙ omega (arith, aligned)
