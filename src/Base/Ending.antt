-- ===== src/Base/Ending.antt =====
-- How a call of the C code ends.

pub data Outcome {ℓ} (A : Type ℓ) : Type ℓ where
  ok : A → Outcome A  -- it returns
  exited : Outcome A  -- it calls `exit(1)`
  fault : Outcome A  -- undefined behaviour: an index out of bounds, a null pointer
  blocked : Outcome A  -- it waits for a mutex that its own thread holds
  no_fuel : Outcome A  -- the bound on the rounds of a loop is used up

infixl 5 ◌>>=◌
abbrev pub ◌>>=◌ {ℓ κ} : {A : Type ℓ} {B : Type κ} → Outcome A → (A → Outcome B) → Outcome B
ok a >>= f = f a
exited >>= f = exited
fault >>= f = fault
blocked >>= f = blocked
no_fuel >>= f = no_fuel

-- The same, where another `◌>>=◌` is in scope.
abbrev pub bind : {A B : Type 0} → Outcome A → (A → Outcome B) → Outcome B
bind o f = o >>= f
