-- ===== src/Base/Outcomes.antt =====
-- How a call of the program ends.
use mathlib.Core.Path.{◌≡◌}

-- `throws` is a C++ exception, `fault` a null pointer that is dereferenced or an `assert` that
-- fails, and `out_of_fuel` belongs to the model: a loop that had too few rounds.
pub data Outcome {ℓ} (A : Type ℓ) : Type ℓ where
  ok : A → Outcome A
  throws fault out_of_fuel : Outcome A

module _ {ℓ κ} {A : Type ℓ} {B : Type κ} where
  -- The rest of the call runs only if the first part returns.
  infixl 5 ◌>>=◌
  abbrev pub ◌>>=◌ : Outcome A → (A → Outcome B) → Outcome B
  throws >>= next = throws
  fault >>= next = fault
  out_of_fuel >>= next = out_of_fuel
  ok result >>= next = next result

pub ok-injective {ℓ} : {A : Type ℓ} {a b : A} → ok a ≡ ok b → a ≡ b
ok-injective h = cc
