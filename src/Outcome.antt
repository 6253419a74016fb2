-- ===== src/Outcome.antt =====
-- How a call of the library ends: with a value, with an exception, or in undefined behaviour (an empty
-- `std::optional` is read, an empty view is asked for its front, an index is out of range).
pub data Outcome {ℓ} (A : Type ℓ) : Type ℓ where
  returns : A → Outcome A
  throws : Outcome A
  undefined : Outcome A

infixl 5 ◌>>=◌
abbrev pub ◌>>=◌ {ℓ κ} : {A : Type ℓ} {B : Type κ} → Outcome A → (A → Outcome B) → Outcome B
returns a >>= f = f a
throws >>= f = throws
undefined >>= f = undefined
