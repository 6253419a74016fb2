-- ===== src/OnScheduler/Algorithms.antt =====
-- More of the parallel algorithms on the scheduler: the orders in which its workers run the tasks of the
-- parts are orders that the theorems on the algorithms are about.
use function_queue.Prelude.{
  ℕ, ◌*◌, ◌≤◌, ◌<◌, ◌≡◌, List, [], map, none, some, Bool, true, length, All, range, ltb, ◌==◌,
  if◌then◌else◌,
}
use function_queue.Outcome.{returns, throws, ◌>>=◌}
use function_queue.Ranges.{Policy}
use function_queue.Tasks.{IsSchedule}
use function_queue.MessageQueue.{LockfreeQueue, Round}
use function_queue.Scheduler.{Task, Scheduler}
use function_queue.Scheduler.Running.{pending, run_turns}
use function_queue.Scheduler.Dispatch.{Event, added, InRange, happen}
use function_queue.Algorithms.ForEach.{parallel_for_each, parallel_for_each-eq-map}
use function_queue.Algorithms.Find.{find_if, parallel_find_if, parallel_find_if-eq-find_if}
use function_queue.Algorithms.Count.{count_if, parallel_count, parallel_count-eq-count_if}
use function_queue.OnScheduler.{parts_run, happen-IsSchedule}

-- The caller adds the tasks of the parts to a running scheduler whose `m_num_threads` is the number of its
-- queues, and whose queues are empty and have room for
-- all of them together; workers take turns while it does so and afterwards, at least one for each part.
module _ {κ} {Q : Type κ} (lf : LockfreeQueue Q (Task ℕ)) (counts : ℕ → ℕ) (rounds : List (Round Q))
    (latch : ℕ) {A : Type 0} (policy : Policy) (xs : List A) (es : List (Event ℕ)) (ids : List ℕ)
    (s : Scheduler Q ℕ)
    (parts : added es ≡ range (length (policy.split (length xs) (length s.tasks))))
    (new : counts latch ≡ 1) (continues : s.continue ≡ true)
    (threads : s.num_threads ≡ length s.tasks) (workers : 0 < length s.tasks)
    (nothing_ran : s.ran ≡ []) (empty : pending lf counts rounds s ≡ [])
    (in_range : InRange (length s.tasks) es) (ids_in_range : All (λ id. id < length s.tasks) ids)
    (space : length (policy.split (length xs) (length s.tasks)) ≤ lf.capacity * length s.tasks)
    (enough : length (policy.split (length xs) (length s.tasks)) ≤ length ids) where
  -- What holds for every order of the tasks holds for the one that the workers come to.
  any_order-on_scheduler {ℓ} :
      (Result : List ℕ → Type ℓ)
      → ((order : List ℕ)
          → IsSchedule (policy.split (length xs) (length s.tasks)) order
          → Result order)
      → (s' : Scheduler Q ℕ) × ((happen lf counts rounds latch es s
            >>= run_turns lf counts rounds ids)
          ≡ returns s')
        × Result (parts_run s'.ran)
  any_order-on_scheduler Result holds =
      let (s', ends, order) =
        happen-IsSchedule lf counts rounds latch (policy.split (length xs) (length s.tasks)) es ids
          s parts new continues threads workers nothing_ran empty in_range ids_in_range space
          enough in
      (s', ends, holds (parts_run s'.ran) order)

  -- `parallel_for_each` applies the function exactly once to each item, and comes back if there is one.
  parallel_for_each-on_scheduler :
      (func : A → A)
      → (s' : Scheduler Q ℕ) × ((happen lf counts rounds latch es s
            >>= run_turns lf counts rounds ids)
          ≡ returns s')
        × (parallel_for_each policy (length s.tasks) (parts_run s'.ran) func xs
            ≡ (if length xs == 0 then none else some (map func xs)))
  parallel_for_each-on_scheduler func =
      any_order-on_scheduler
        (λ order.
          parallel_for_each policy (length s.tasks) order func xs
          ≡ (if length xs == 0 then none else some (map func xs)))
        (λ order p. parallel_for_each-eq-map policy (length s.tasks) workers order func xs p)

  -- `parallel_find_if` finds the first item that satisfies the predicate.
  parallel_find_if-on_scheduler :
      (pred : A → Bool)
      → (s' : Scheduler Q ℕ) × ((happen lf counts rounds latch es s
            >>= run_turns lf counts rounds ids)
          ≡ returns s')
        × (parallel_find_if policy (length s.tasks) (parts_run s'.ran) pred xs ≡ find_if pred xs)
  parallel_find_if-on_scheduler pred =
      any_order-on_scheduler
        (λ order. parallel_find_if policy (length s.tasks) order pred xs ≡ find_if pred xs)
        (λ order p. parallel_find_if-eq-find_if policy (length s.tasks) workers order pred xs p)

  -- `parallel_count` counts the items that satisfy the predicate; it throws on fewer than two.
  parallel_count-on_scheduler :
      (pred : A → Bool)
      → (s' : Scheduler Q ℕ) × ((happen lf counts rounds latch es s
            >>= run_turns lf counts rounds ids)
          ≡ returns s')
        × (parallel_count policy (length s.tasks) (parts_run s'.ran) pred xs
            ≡ (if ltb (length xs) 2 then throws else returns (count_if pred xs)))
  parallel_count-on_scheduler pred =
      any_order-on_scheduler
        (λ order.
          parallel_count policy (length s.tasks) order pred xs
          ≡ (if ltb (length xs) 2 then throws else returns (count_if pred xs)))
        (λ order p. parallel_count-eq-count_if policy (length s.tasks) workers order pred xs p)
