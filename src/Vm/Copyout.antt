-- ===== src/Vm/Copyout.antt =====
-- copyout writes to the memory of a process, page by page.
pub mod Pages
pub mod Pieces
use cs.Prelude.{
  ℕ, zero, suc, ◌+◌, ◌-◌, ◌*◌, ◌/◌, ◌%◌, ◌^◌, ◌≤◌, ◌<◌, ◌≡◌, refl, ◌∙◌, ap, sym, subst, fun_ext,
  ◌≢◌, ◌⊎◌, inl, inr, Bool, true, false, ◌&&◌, not, arith, ◌==◌, ==_ne, ==_refl, Bool-cases,
  if◌then◌else◌, ltb, leb,
}
use cs.Prelude.Int.{ℤ, pos, negsuc}
use cs.Prelude.Run.{Cmd, Yields, yields, Yields-bind, Yields-mono, ok}
use cs.Bytes.{Memory, word_at, memmove}
use cs.Bytes.Move.{memmove-copied}
use cs.Proc.Table.{add32}
use cs.Kalloc.{pgsize, kernbase, Kmem, round_down}
use cs.Vm.{p2v, pdx, ptx, is_present, is_user, pte_addr, walkpgdir}
use cs.Vm.User.{uva2ka, piece, copyout_loop, copyout}
use cs.Vm.Translate.{pde_of, table_of, pte_of, IsTree, table_aligned}
use cs.Vm.Map.{walkpgdir-there}
use cs.Vm.Copyout.Pages.{frame, place, IsWritable, pte_of-OnlyIn, uva2ka-frame}
use cs.Vm.Copyout.Pieces.{Copied, IsWritable-rest, piece-Copied, Copied-append, pte_of-near}

-- What copyout leaves.
abbrev Written : (m : Memory) → (pgdir va buf len : ℕ) → ℤ → Kmem → Type 0
Written m pgdir va buf len r t =
    (r ≡ pos 0)
    × (pte_of t.memory pgdir ≡ pte_of m pgdir)
    × Copied (pte_of m pgdir) va buf len m t.memory

piece_bounds :
    (va len : ℕ)
    → 0 < len
    → va + len ≤ kernbase
    → (0 < piece va len)
      × (piece va len ≤ len)
      × (va % pgsize + piece va len ≤ pgsize)
      × (add32 (round_down va) pgsize + (len - piece va len) ≤ kernbase)
      × (piece va len < len → add32 (round_down va) pgsize ≡ va + piece va len)
piece_bounds va len some fits =
    (ground arith, ground arith, ground arith, ground arith, λ h. ground (arith, h))

-- The rounds after a piece, which stand at the next page.
Written-rest :
    (m : Memory) (pgdir va va' buf len : ℕ) (r : ℤ) (t : Kmem)
    → (0 < len → va' ≡ va)
    → Written m pgdir va' buf len r t
    → Written m pgdir va buf len r t
Written-rest m pgdir va va' buf len r t same (done, table, (bytes, kept)) = (
  done,
  table,
  (
    λ i h.
        ap (λ z. t.memory (place (pte_of m pgdir) (z + i))) (sym (same (omega arith))) ∙ bytes i h,
    λ a ne.
        kept a (λ j h e.
          ne j h (ap (λ z. place (pte_of m pgdir) (z + j)) (sym (same (omega arith))) ∙ e)),
  ),
)

IsWritable-moved :
    (e d : ℕ → ℕ) (pgdir va va' buf len : ℕ)
    → (0 < len → va' ≡ va)
    → IsWritable e d pgdir va buf len
    → IsWritable e d pgdir va' buf len
IsWritable-moved e d pgdir va va' buf zero same w = record {
  present = λ i h. absurd (omega arith);
  user = λ i h. absurd (omega arith);
  not_null = λ i h. absurd (omega arith);
  no_directory = λ i h. absurd (omega arith);
  no_table = λ i vb h there. absurd (omega arith);
  own_pages = λ i j h hj e. absurd (omega arith);
  no_buffer = λ i j h hj e. absurd (omega arith);
}
IsWritable-moved e d pgdir va va' buf (suc len) same w =
    subst (λ z. IsWritable e d pgdir z buf (suc len)) (sym (same (omega arith))) w

copyout_loop-Written :
    (k : ℕ) (s : Kmem) (pgdir va buf len : ℕ)
    → IsTree (pde_of s.memory pgdir) pgdir
    → IsWritable (pte_of s.memory pgdir) (pde_of s.memory pgdir) pgdir va buf len
    → len < k
    → va + len ≤ kernbase
    → Yields (Written s.memory pgdir va buf len) (copyout_loop pgdir k va buf len s)
unfolding copyout_loop
copyout_loop-Written zero s pgdir va buf len tree w fuel fits = absurd (omega arith)
copyout_loop-Written (suc k) s pgdir va buf len tree w fuel fits = elim (Bool-cases (len == 0)) [
  | inl none ↦
      rw none (yields (refl, refl, ((λ i h. absurd (ground (arith, none, h))), λ a ne. refl)))
  | inr some ↦
      let e = pte_of s.memory pgdir in
      let d = pde_of s.memory pgdir in
      let n = piece va len in
      let va' = add32 (round_down va) pgsize in
      let (pos_, le, fit, low, next) = piece_bounds va len (ground arith) fits in
      let first : va + 0 ≡ va = omega arith in
      let there : is_present (e va) ≡ true =
        ap (λ z. is_present (e z)) (sym first) ∙ w.present 0 (ground arith) in
      let user : is_user (e va) ≡ true =
        ap (λ z. is_user (e z)) (sym first) ∙ w.user 0 (ground arith) in
      let real : 0 < frame e va = subst (λ z. 0 < frame e z) first (w.not_null 0 (ground arith)) in
      let m' = memmove (frame e va + (va - round_down va)) buf n s.memory in
      let (only, copied) = piece-Copied e va buf n s.memory fit (λ i h.
        ap (λ z. p2v (pte_addr z)) (pte_of-near s.memory pgdir (va + i) va (omega arith))) in
      let (words, entries) =
        pte_of-OnlyIn s.memory m' pgdir (frame e va) tree
          (subst (λ z. frame e z ≢ pgdir) first (w.no_directory 0 (ground arith)))
          (λ vb h.
            subst (λ z. frame e z ≢ table_of s.memory pgdir vb) first
              (w.no_table 0 vb (ground arith) h))
          only in
      let t : Kmem = record s { memory = m' } in
      let w' : IsWritable (pte_of m' pgdir) (pde_of m' pgdir) pgdir va' (buf + n) (len - n) =
        subst (λ f. IsWritable f (pde_of m' pgdir) pgdir va' (buf + n) (len - n)) (sym entries)
          (subst (λ f. IsWritable e f pgdir va' (buf + n) (len - n)) (sym words)
            (IsWritable-moved e d pgdir (va + n) va' (buf + n) (len - n) (λ h. next (omega arith))
              (IsWritable-rest e d pgdir va buf n len le w))) in
      rw (some, uva2ka-frame s pgdir va tree there user, ==_ne (frame e va) 0 (omega arith))
        (Yields-mono
          (copyout_loop-Written k t pgdir va' (buf + n) (len - n)
            (subst (λ f. IsTree f pgdir) (sym words) tree) w' (omega arith) low)
          λ r u written.
            let (done, table, rest) =
              Written-rest m' pgdir (va + n) va' (buf + n) (len - n) r u (λ h. next (omega arith))
                written in
            (
              done,
              table ∙ entries,
              Copied-append e d pgdir va buf n len s.memory m' u.memory w le copied
                  (subst (λ f. Copied f (va + n) (buf + n) (len - n) m' u.memory) entries rest),
            ))
]

-- copyout to a range below KERNBASE that is the user's, in pages of their own that are neither in the page
-- table nor hold the bytes at `buf`, returns 0, puts the bytes where the page table says, and changes no
-- other byte and no entry of the page table.
pub copyout-Copied :
    (s : Kmem) (pgdir va buf len : ℕ)
    → IsTree (pde_of s.memory pgdir) pgdir
    → IsWritable (pte_of s.memory pgdir) (pde_of s.memory pgdir) pgdir va buf len
    → va + len ≤ kernbase
    → Yields
        (λ r t.
          (r ≡ pos 0)
          × (pte_of t.memory pgdir ≡ pte_of s.memory pgdir)
          × Copied (pte_of s.memory pgdir) va buf len s.memory t.memory)
        (copyout pgdir va buf len s)
unfolding copyout
copyout-Copied s pgdir va buf len tree w fits =
    copyout_loop-Written (len + 1) s pgdir va buf len tree w (omega arith) fits
