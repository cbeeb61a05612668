-- ===== src/Syscall/Tests.antt =====
-- The theorems about system calls at a small memory, and for a process of the sample table.
use cs.Prelude.{◌+◌, ◌<◌, ◌≤◌, ◌≡◌, ◌↔◌, some, arith, ◌==◌, if◌then◌else◌}
use cs.Bytes.{Memory}
use cs.Proc.Table.{Kern}
use cs.Proc.Sample.{kern}
use cs.Syscall.{argptr, fetchstr}
use cs.Syscall.Arguments.{IsText, fetchstr-IsText, argptr_inside, IsArgument}

-- The text of three sevens at 20, and zeros elsewhere.
abbrev memory : Memory
memory a = if a == 20 then 7 else if a == 21 then 7 else if a == 22 then 7 else 0

fetchstr-IsText_example : (fetchstr memory 64 20 ≡ some 3) ↔ IsText memory 64 20 3
fetchstr-IsText_example = fetchstr-IsText memory 64 20 3

argptr_inside_example :
    (argptr memory 64 12 0 40 ≡ some 0) ↔ (IsArgument memory 64 12 0 0 × (0 < 64) × (0 + 40 ≤ 64))
argptr_inside_example = argptr_inside memory 64 12 0 40 0 (omega arith)

-- The running process in every entry.
abbrev user : Kern
user = record kern { procs = λ p. kern.procs 3 }
