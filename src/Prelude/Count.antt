-- ===== src/Prelude/Count.antt =====
-- Runs of consecutive numbers.
use Prim.Native.Nat.{ℕ, zero, suc, ◌+◌}
use mathlib.Core.Path.{◌≡◌}
use mathlib.Core.Bool.{◌&&◌}
use mathlib.Core.List.{List, [], ◌∷◌}
use native.Mathlib.Omega.{arith}
use cs.Prelude.Tests.{ltb, leb}
use cs.Prelude.Finite.{has, Distinct, last}

-- a, a + 1, … , k numbers.
abbrev pub count : ℕ → ℕ → List ℕ
count a zero = []
count a (suc k) = a ∷ count (a + 1) k

pub has-count : (x a k : ℕ) → has x (count a k) ≡ (leb a x && ltb x (a + k))
has-count x a zero = ground arith
has-count x a (suc k) = ground (arith, has-count x (a + 1) k)

pub Distinct-count : (a k : ℕ) → Distinct (count a k)
Distinct-count a zero = tt
Distinct-count a (suc k) = (ground (arith, has-count a (a + 1) k), Distinct-count (a + 1) k)

pub last-count : (x a k : ℕ) → last x (count a (suc k)) ≡ a + k
last-count x a zero = omega arith
last-count x a (suc k) = ground (arith, last-count a (a + 1) k)
