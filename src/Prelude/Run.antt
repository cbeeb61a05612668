-- ===== src/Prelude/Run.antt =====
-- Kernel code as commands over a state. A command returns, panics with the kernel's message, or
-- faults (it follows a null pointer or leaves an array); `out_of_fuel` is the model's own.
use Prim.Native.String.{String}
use mathlib.Core.Path.{◌≡◌, refl, subst}

pub data Run (S A : Type 0) : Type 0 where
  ok : A → S → Run S A
  panic : String → Run S A
  fault : Run S A
  out_of_fuel : Run S A

abbrev pub Cmd : Type 0 → Type 0 → Type 0
Cmd S A = S → Run S A

module _ {S : Type 0} where
  abbrev pub pure : {A : Type 0} → A → Cmd S A
  pure a s = ok a s

  abbrev pub fetch : Cmd S S
  fetch s = ok s s

  abbrev pub modify : (S → S) → Cmd S (Unit {0})
  modify f s = ok tt (f s)

  abbrev pub and_then : {A B : Type 0} → Run S A → (A → Cmd S B) → Run S B
  and_then (ok a s) k = k a s
  and_then (panic why) k = panic why
  and_then fault k = fault
  and_then out_of_fuel k = out_of_fuel

  infixl 5 ◌>>=◌ ◌>>◌
  abbrev pub ◌>>=◌ : {A B : Type 0} → Cmd S A → (A → Cmd S B) → Cmd S B
  ◌>>=◌ m k s = and_then (m s) k

  abbrev pub ◌>>◌ : {B : Type 0} → Cmd S (Unit {0}) → Cmd S B → Cmd S B
  m >> k = m >>= λ _. k

-- Total correctness: the command returns, and its result and final state satisfy `P`.
pub data Yields {S A : Type 0} (P : A → S → Type 0) : Run S A → Type 0 where
  yields : {a : A} {s : S} → P a s → Yields P (ok a s)

module _ {S A : Type 0} {P : A → S → Type 0} where
  pub Yields-bind :
      {B : Type 0} {Q : B → S → Type 0} {r : Run S A} {k : A → Cmd S B}
      → Yields P r
      → ((a : A) (s : S) → P a s → Yields Q (k a s))
      → Yields Q (and_then r k)
  Yields-bind (yields p) after = after _ _ p

  pub Yields-mono :
      {Q : A → S → Type 0} {r : Run S A}
      → Yields P r
      → ((a : A) (s : S) → P a s → Q a s)
      → Yields Q r
  Yields-mono (yields p) weaken = yields (weaken _ _ p)

  pub Yields-eq : {r : Run S A} → Yields P r → (a : A) × (s : S) × (r ≡ ok a s) × P a s
  Yields-eq (yields {a} {s} p) = (a, s, refl, p)

pub and_then_assoc :
    {S A B C : Type 0} (r : Run S A) (f : A → Cmd S B) (g : B → Cmd S C)
    → and_then (and_then r f) g ≡ and_then r (λ a s. and_then (f a s) g)
and_then_assoc (ok a s) f g = refl
and_then_assoc (panic why) f g = refl
and_then_assoc fault f g = refl
and_then_assoc out_of_fuel f g = refl

-- Two commands that are known together, and what follows them.
pub Yields-then :
    {S B : Type 0} {P : Unit {0} → S → Type 0} {Q : B → S → Type 0} (m n : Cmd S (Unit {0}))
    (k : Cmd S B) (s : S)
    → Yields P ((m >> n) s)
    → ((t : S) → P tt t → Yields Q (k t))
    → Yields Q ((m >> (n >> k)) s)
Yields-then {P} {Q} m n k s h after =
    subst (Yields Q) (and_then_assoc (m s) (λ _. n) (λ _. k)) (Yields-bind h λ _ t p. after t p)
