-- ===== src/Futures/Expected.antt =====
-- `daw::expected_t` (a dependency) as this library uses it: a value, or the exception that a task threw.
pub data Expected {ℓ} (A : Type ℓ) : Type ℓ where
  value : A → Expected A
  exception : Expected A

-- A continuation is called on a value, and an exception is passed on.
abbrev pub and_then {ℓ κ} : {A : Type ℓ} {B : Type κ} → Expected A → (A → Expected B) → Expected B
and_then (value a) f = f a
and_then exception f = exception
