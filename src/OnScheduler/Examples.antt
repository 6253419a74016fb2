-- ===== src/OnScheduler/Examples.antt =====
-- Five numbers that are added up in parts of two, on a scheduler of three queues with two slots each.
use function_queue.Prelude.{Permᴰ, ℕ, true, map, ◌+◌, ◌≡◌, refl, List, [], ◌∷◌, arith}
use native.Mathlib.Nat.{add_assoc}
use function_queue.Outcome.{returns, ◌>>=◌}
use function_queue.MessageQueue.{try_push_back, try_pop_front}
use function_queue.MessageQueue.Examples.{two_slots}
use function_queue.Ranges.{split_fixed, split_fixed_policy}
use function_queue.Scheduler.{Task, Scheduler, send_task, run_next_task}
use function_queue.Scheduler.Running.{run_turns, pending}
use function_queue.Scheduler.Dispatch.{Event, adds, takes, make_task, happen, happen_complete}
use function_queue.Algorithms.Reduce.{parallel_reduce}
use function_queue.OnScheduler.{parts_run, parallel_reduce-on_scheduler}

abbrev idle : Scheduler (List (Task ℕ)) ℕ
idle = record {
  tasks = [] ∷ [] ∷ [] ∷ [];
  num_threads = 3;
  continue = true;
  task_count = 7;
  ran = [];
}

abbrev counts : ℕ → ℕ
counts l = 1

-- Worker 2 runs the first part before the second is added.
abbrev events : List (Event ℕ)
events = adds 0 ∷ takes 2 ∷ adds 1 ∷ adds 2 ∷ takes 0 ∷ []

happen_run :
    (happen (two_slots (Task ℕ)) counts [] 0 events idle
      >>= run_turns (two_slots (Task ℕ)) counts [] (1 ∷ 1 ∷ 2 ∷ []))
    ≡ returns (record {
      tasks = [] ∷ [] ∷ [] ∷ [];
      num_threads = 3;
      continue = true;
      task_count = 10;
      ran = map (make_task 0) (0 ∷ 2 ∷ 1 ∷ []);
    })
unfolding happen run_turns run_next_task send_task try_push_back try_pop_front
happen_run = refl

reduce_on_scheduler_run :
    (s' : Scheduler (List (Task ℕ)) ℕ) × ((happen (two_slots (Task ℕ)) counts [] 0 events idle
        >>= run_turns (two_slots (Task ℕ)) counts [] (1 ∷ 1 ∷ 2 ∷ []))
      ≡ returns s')
    × (parallel_reduce
          (split_fixed_policy 2 (omega arith))
          3
          (parts_run s'.ran)
          ◌+◌
          100
          (4 ∷ 1 ∷ 3 ∷ 1 ∷ 5 ∷ [])
        ≡ returns 114)
unfolding split_fixed
reduce_on_scheduler_run =
    parallel_reduce-on_scheduler (two_slots (Task ℕ)) counts [] 0 ◌+◌ (λ a b c. add_assoc a b c)
      (split_fixed_policy 2 (omega arith)) 100 (4 ∷ 1 ∷ 3 ∷ 1 ∷ 5 ∷ []) events (1 ∷ 1 ∷ 2 ∷ []) idle
      refl refl refl refl (omega arith) refl refl (omega arith) (omega arith) (omega arith)
      (omega arith)

happen_complete_example :
    (s' : Scheduler (List (Task ℕ)) ℕ) × ((happen (two_slots (Task ℕ)) counts [] 0 events idle
        >>= run_turns (two_slots (Task ℕ)) counts [] (1 ∷ 1 ∷ 2 ∷ []))
      ≡ returns s')
    × (pending (two_slots (Task ℕ)) counts [] s' ≡ [])
    × Permᴰ s'.ran (map (make_task 0) (0 ∷ 1 ∷ 2 ∷ []))
happen_complete_example =
    happen_complete (two_slots (Task ℕ)) counts [] 0 events (1 ∷ 1 ∷ 2 ∷ []) idle refl refl refl
      (omega arith) refl refl (omega arith) (omega arith) (omega arith) (omega arith)
