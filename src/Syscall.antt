-- ===== src/Syscall.antt =====
-- The arguments of system calls, from syscall.c. `m` is the memory of the current process, `sz` its size
-- and `esp` its saved stack pointer; none is the result -1, for which nothing is written.
pub mod Arguments
pub mod Process
mod Tests
use cs.Prelude.{
  ℕ, zero, suc, ◌+◌, ◌*◌, ◌-◌, ◌^◌, Bool, true, false, ◌||◌, Option, none, some, ◌==◌, leb, ltb,
  if◌then◌else◌,
}
use cs.Bytes.{Memory, word_at}
use cs.Proc.Table.{add32}

unfoldable pub fetchint : Memory → (sz addr : ℕ) → Option ℕ
fetchint m sz addr = if leb sz addr || ltb sz (add32 addr 4) then none else some (word_at m addr)

-- The loop of fetchstr from `s` on, `k` bytes before the end; `n` is s - *pp.
unfoldable pub text_from : Memory → (k s n : ℕ) → Option ℕ
text_from m zero s n = none
text_from m (suc k) s n =
    let rest = text_from m k (s + 1) (n + 1) in if m s == 0 then some n else rest

-- The length of the text; *pp is `addr`.
unfoldable pub fetchstr : Memory → (sz addr : ℕ) → Option ℕ
unfolding text_from
fetchstr m sz addr = if leb sz addr then none else text_from m (sz - addr) addr 0

unfoldable pub argint : Memory → (sz esp n : ℕ) → Option ℕ
unfolding fetchint
argint m sz esp n = fetchint m sz (add32 (add32 esp 4) (4 * n))

-- The test of argptr, whose argument `i` is; `size` is a bit pattern.
abbrev pub leaves_memory : (sz i size : ℕ) → Bool
leaves_memory sz i size = leb sz i || ltb sz (add32 i size)

abbrev pub check_block : (sz size : ℕ) → Option ℕ → Option ℕ
check_block sz size none = none
check_block sz size (some i) = if leaves_memory sz i size then none else some i

unfoldable pub argptr : Memory → (sz esp n size : ℕ) → Option ℕ
argptr m sz esp n size = check_block sz size (argint m sz esp n)

-- The address and the length of the text.
unfoldable pub argstr : Memory → (sz esp n : ℕ) → Option (ℕ × ℕ)
argstr m sz esp n = elim (argint m sz esp n) [
  | none ↦ none
  | some addr ↦ elim (fetchstr m sz addr) [ none ↦ none | some len ↦ some (addr, len) ]
]
