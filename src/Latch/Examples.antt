-- ===== src/Latch/Examples.antt =====
-- A latch with a count of two and one thread that waits for it.
use function_queue.Prelude.{ℕ, ◌≡◌, refl, false, true, [], ◌∷◌, arith, foldl}
use function_queue.Latch.{
  Latch, loading, blocked, adds, notifies, notifies_one, waits, step, try_wait,
}
use function_queue.Latch.Deadline.{Seen, sleeping, returned, wait_until, wait_with_pred}
use function_queue.Latch.Handles.{
  call_all_unique, call_unique, make_unique, use_shared, call_shared, share_unique, copies, calls,
  destroys, shared_by,
}
use function_queue.Outcome.{returns, ◌>>=◌}
use function_queue.Latch.Opening.{try_wait-steps}

abbrev two : Latch
two = record { count = 2; waiters = loading ∷ [] }

try_wait-steps_example :
    try_wait (foldl step two (notifies ∷ adds ∷ waits 0 ∷ notifies_one ∷ notifies ∷ [])) ≡ true
try_wait-steps_example =
    try_wait-steps two (notifies ∷ adds ∷ waits 0 ∷ notifies_one ∷ notifies ∷ []) (omega arith)
      (omega arith)

-- The thread has seen the count, and is blocked.
abbrev waited : Latch
waited = record { count = 2; waiters = blocked ∷ [] }

waits_two : foldl step two (waits 0 ∷ waits 0 ∷ []) ≡ waited
unfolding step
waits_two = refl

-- What a thread sees of a count at a time.
abbrev at : ℕ → ℕ → Seen
at count now = record { count = count; now = now; pred = false }

-- The deadline 5 passes while the thread looks at its clock.
wait_until_in_time : wait_until 5 (at 1 3 ∷ at 1 6 ∷ []) ≡ returned
unfolding wait_until
wait_until_in_time = refl

wait_until_late : wait_until 5 (at 1 3 ∷ at 1 4 ∷ at 1 4 ∷ at 1 6 ∷ at 1 9 ∷ []) ≡ sleeping 1
unfolding wait_until
wait_until_late = refl

-- The predicate holds from the third look on.
wait_with_pred_run :
    wait_with_pred (
      at 1 0
      ∷ at 1 0
      ∷ record { count = 1; now = 0; pred = true }
      ∷ record { count = 1; now = 0; pred = true }
      ∷ [])
    ≡ sleeping 1
unfolding wait_with_pred
wait_with_pred_run = refl

-- A latch for two notifications: one through the `unique_latch`, one through a copy of the
-- `shared_latch` that it becomes.
handed_over :
    (call_all_unique (notifies ∷ []) (make_unique 2) >>= λ o.
    use_shared (copies ∷ calls notifies ∷ destroys ∷ []) (share_unique o))
    ≡ returns (shared_by 1 (record { count = 0; waiters = [] }))
unfolding call_all_unique call_unique use_shared call_shared share_unique step
handed_over = refl
