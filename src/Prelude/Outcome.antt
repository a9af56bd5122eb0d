-- ===== src/Prelude/Outcome.antt =====
-- What a call of the simulator may come to: a value, or `fault`, the end of the program by a failed
-- ASSERT or by an access through a null or dangling pointer or outside an array.
use mathlib.Core.Bool.{Bool, true, false}

pub data Outcome {ℓ} (A : Type ℓ) : Type ℓ where
  ok : A → Outcome A
  fault : Outcome A

infixl 5 ◌>>=◌ ◌>>◌
abbrev pub ◌>>=◌ {ℓ κ} : {A : Type ℓ} {B : Type κ} → Outcome A → (A → Outcome B) → Outcome B
ok a >>= f = f a
fault >>= f = fault

abbrev pub ◌>>◌ {ℓ} : {B : Type ℓ} → Outcome (Unit {0}) → Outcome B → Outcome B
m >> k = m >>= λ _. k

-- ASSERT of threads/utility.h.
abbrev pub assert : Bool → Outcome (Unit {0})
assert true = ok tt
assert false = fault
