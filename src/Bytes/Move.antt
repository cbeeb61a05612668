-- ===== src/Bytes/Move.antt =====
-- memmove copies, whether or not the ranges overlap.
use cs.Prelude.{
  ℕ, zero, suc, ◌+◌, ◌-◌, ◌≤◌, ◌≡◌, ◌⊎◌, inl, inr, ◌&&◌, arith, ltb, leb, if◌then◌else◌, Bool-cases,
}
use cs.Bytes.{Memory, poke, copy_up, copy_down, memmove}

-- What is at an address after n bytes have been copied from s to d.
abbrev pub copied : ℕ → ℕ → ℕ → Memory → Memory
copied n d s m a = if leb d a && ltb a (d + n) then m (s + (a - d)) else m a

copy_up-copied :
    (n d s : ℕ) (m : Memory) (a : ℕ) → (d ≤ s) ⊎ (s + n ≤ d) → copy_up n d s m a ≡ copied n d s m a
unfolding copy_up
copy_up-copied zero d s m a h = ground arith
copy_up-copied (suc n) d s m a h =
    ground (arith, copy_up-copied n (d + 1) (s + 1) (poke m d (m s)) a)

copy_down-copied : (n d s : ℕ) (m : Memory) (a : ℕ) → s ≤ d → copy_down n d s m a ≡ copied n d s m a
unfolding copy_down
copy_down-copied zero d s m a h = ground arith
copy_down-copied (suc n) d s m a h =
    ground (arith, copy_down-copied n d s (poke m (d + n) (m (s + n))) a)

-- After memmove each byte of the destination is the byte that stood at the same offset of the source
-- before, also where the ranges overlap, and no byte outside of the destination has changed.
pub memmove-copied :
    (dst src n : ℕ) (m : Memory) (a : ℕ)
    → memmove dst src n m a ≡ (if leb dst a && ltb a (dst + n) then m (src + (a - dst)) else m a)
unfolding memmove
memmove-copied dst src n m a = elim (Bool-cases (ltb src dst && ltb dst (src + n))) [
  | inl e ↦ rw e (copy_down-copied n dst src m a (ground arith))
  | inr e ↦ rw e (copy_up-copied n dst src m a (ground arith))
]
