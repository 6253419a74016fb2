-- ===== src/Scheduler/Examples/Nested.antt =====
-- Three wrapped tasks in the queues of a scheduler.
use function_queue.Prelude.{ℕ, ◌≡◌, refl, true, List, [], ◌∷◌, some, arith, length, Permᴰ}
use function_queue.Outcome.{returns}
use function_queue.MessageQueue.{returned, try_pop_front}
use function_queue.MessageQueue.Examples.{two_slots}
use function_queue.Scheduler.{Task, Scheduler, is_ready}
use function_queue.Scheduler.Running.{pending}
use function_queue.Scheduler.Wrapper.{Wrapped, run_wrapped_tasks, run_wrapped_tasks-depth}

abbrev added_to : ℕ → ℕ → Task (Wrapped ℕ)
added_to id n = record { function = some (record { id = id; task = n }); latch = some 0 }

abbrev counts : ℕ → ℕ
counts l = 1

abbrev waiting_tasks : Scheduler (List (Task (Wrapped ℕ))) (Wrapped ℕ)
waiting_tasks = record {
  tasks = (added_to 0 1 ∷ []) ∷ (added_to 1 2 ∷ added_to 1 3 ∷ []) ∷ [];
  num_threads = 2;
  continue = true;
  task_count = 0;
  ran = [];
}

run_wrapped_tasks-depth_example :
    (s' : Scheduler (List (Task (Wrapped ℕ))) (Wrapped ℕ)) × (run_wrapped_tasks
        (two_slots (Task (Wrapped ℕ)))
        counts
        []
        4
        1
        waiting_tasks
      ≡ returns (returned 3, s'))
    × (pending (two_slots (Task (Wrapped ℕ))) counts [] s' ≡ [])
    × Permᴰ s'.ran (added_to 0 1 ∷ added_to 1 2 ∷ added_to 1 3 ∷ [])
    × (s'.continue ≡ true)
    × (length s'.tasks ≡ 2)
unfolding is_ready
run_wrapped_tasks-depth_example =
    run_wrapped_tasks-depth (two_slots (Task (Wrapped ℕ))) counts [] 4 1 waiting_tasks refl
      (omega arith)
      (
        (record { id = 0; task = 1 }, refl, refl, omega arith),
        (
          (record { id = 1; task = 2 }, refl, refl, omega arith),
          ((record { id = 1; task = 3 }, refl, refl, omega arith), tt),
        ),
      )
      (omega arith)

-- The order in which they are called.
nested_run :
    run_wrapped_tasks (two_slots (Task (Wrapped ℕ))) counts [] 4 1 waiting_tasks
    ≡ returns (
      returned 3,
      record {
        tasks = [] ∷ [] ∷ [];
        num_threads = 2;
        continue = true;
        task_count = 0;
        ran = added_to 1 2 ∷ added_to 1 3 ∷ added_to 0 1 ∷ [];
      },
    )
unfolding run_wrapped_tasks try_pop_front
nested_run = refl
