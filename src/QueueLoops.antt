-- ===== src/QueueLoops.antt =====
-- The two loops over queues that the operations of src/task_scheduler.cpp have.
use function_queue.Prelude.{ℕ, zero, suc, ◌+◌, ◌%◌, Option, none, some, if◌then◌else◌, ◌==◌}
use function_queue.Outcome.{Outcome, returns, undefined, ◌>>=◌}

-- A loop over queues: the body returns from the function with a result, or goes on with `none`.
module _ {ℓ κ} {S : Type κ} {R : Type ℓ} (body : ℕ → S → Outcome (Option R × S)) where
  -- `for( auto m = …; m != id; m = ( m + 1 ) % n )` from where it stands at `m`. `undefined` also
  -- stands for a loop that has not ended when the fuel has.
  unfoldable pub for_others : ℕ → ℕ → ℕ → ℕ → S → Outcome (Option R × S)
  for_others zero m id n s = if m == id then returns (none, s) else undefined
  for_others (suc fuel) m id n s =
      if m == id
      then returns (none, s)
      else body m s >>= λ (r, s'). elim r [
        | none ↦ for_others fuel ((m + 1) % n) id n s'
        | some x ↦ returns (some x, s')
      ]

  -- `for( ; n < last; ++n )` with `rounds` rounds to go.
  unfoldable pub for_range : ℕ → ℕ → S → Outcome (Option R × S)
  for_range n zero s = returns (none, s)
  for_range n (suc rounds) s = body n s >>= λ (r, s'). elim r [
    | none ↦ for_range (suc n) rounds s'
    | some x ↦ returns (some x, s')
  ]
