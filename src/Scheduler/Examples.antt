-- ===== src/Scheduler/Examples.antt =====
-- A scheduler of three queues with two slots each; its theorems at this scheduler.
mod Nested
use function_queue.Prelude.{
  ℕ, ◌≡◌, Bool, false, All, ◌==◌, refl, true, List, [], ◌∷◌, map, none, some, arith, length, Permᴰ,
}
use function_queue.Outcome.{returns, undefined}
use function_queue.MessageQueue.{
  returned, waiting, push_back, pop_front, try_push_back, try_pop_front,
}
use function_queue.MessageQueue.Examples.{two_slots}
use function_queue.Scheduler.{
  Task, Scheduler, is_ready, with_tasks, send_task, next_task, run_task, run_next_task,
  wait_for_task_from_pool, wait_for_task_of_worker,
}
use function_queue.Threads.{running}
use function_queue.Scheduler.Pool.{Thread, Pool, Ended, start, stop, enter_scope, start-stop}
use function_queue.Scheduler.Overrun.{send_task-enter_scope}
use function_queue.Scheduler.Token.{runner_round}
use function_queue.Scheduler.Token.Losing.{runner_round-loses}
use function_queue.Scheduler.Contents.{next_task-first, send_task-first}
use function_queue.Scheduler.Waiting.{wait_for_task_from_pool-first}
use function_queue.Scheduler.Running.{pending, run_turns}
use function_queue.Scheduler.Ready.{run_task-ready}
use function_queue.Scheduler.Runner.{task_runner, task_runner_with_latch, task_runner_drains}

-- A task with a latch that counts one notification, and one without a latch.
abbrev closed : ℕ → Task ℕ
closed n = record { function = some n; latch = some 0 }

abbrev free : ℕ → Task ℕ
free n = record { function = some n; latch = none }

abbrev counts : ℕ → ℕ
counts l = 1

abbrev queues : List (List (Task ℕ))
queues = [] ∷ (closed 1 ∷ closed 2 ∷ []) ∷ (closed 3 ∷ []) ∷ []

abbrev busy : Scheduler (List (Task ℕ)) ℕ
busy = record { tasks = queues; num_threads = 3; continue = true; task_count = 0; ran = [] }

-- Worker 2 takes its own task first, and worker 0 finds the queue of worker 1.
run_turns-busy :
    run_turns (two_slots (Task ℕ)) counts [] (2 ∷ 0 ∷ 2 ∷ 1 ∷ []) busy
    ≡ returns (record {
      tasks = [] ∷ [] ∷ [] ∷ [];
      num_threads = 3;
      continue = true;
      task_count = 0;
      ran = closed 3 ∷ closed 1 ∷ closed 2 ∷ [];
    })
unfolding run_turns run_next_task try_pop_front
run_turns-busy = refl

-- Queue 1 is full, and the task goes to queue 2.
send_task-first_example :
    (qs : List (List (Task ℕ))) × (send_task (two_slots (Task ℕ)) [] (some (free 9)) 1 busy
      ≡ returns (returned true, with_tasks busy qs))
    × (map (λ q. q) qs ≡ [] ∷ (closed 1 ∷ closed 2 ∷ []) ∷ (closed 3 ∷ free 9 ∷ []) ∷ [])
send_task-first_example =
    send_task-first (two_slots (Task ℕ)) [] (free 9) 1 busy refl refl (omega arith) refl

next_task_run :
    (qs' : List (List (Task ℕ))) × (next_task (two_slots (Task ℕ)) 0 queues
      ≡ returns (some (closed 1), qs'))
    × (map (λ q. q) qs' ≡ [] ∷ (closed 2 ∷ []) ∷ (closed 3 ∷ []) ∷ [])
    × (length qs' ≡ 3)
next_task_run = next_task-first (two_slots (Task ℕ)) 0 queues (omega arith)

-- The ready task goes to queue 0, whose turn it is.
abbrev after_send : Scheduler (List (Task ℕ)) ℕ
after_send = record {
  tasks = (free 5 ∷ []) ∷ (closed 1 ∷ closed 2 ∷ []) ∷ (closed 3 ∷ []) ∷ [];
  num_threads = 3;
  continue = true;
  task_count = 1;
  ran = [];
}

run_task-free :
    run_task (two_slots (Task ℕ)) counts [] (some (free 5)) busy
    ≡ returns (returned true, after_send)
unfolding run_task try_push_back
run_task-free = refl

run_task-ready_example : after_send.ran ≡ []
unfolding is_ready
run_task-ready_example =
    run_task-ready (two_slots (Task ℕ)) counts [] (free 5) busy after_send (returned true) refl
      run_task-free

wait_for_task_run :
    (qs : List (List (Task ℕ))) × (wait_for_task_from_pool (two_slots (Task ℕ)) [] 2 busy
      ≡ returns (returned (some (closed 3)), with_tasks busy qs))
    × (map (λ q. q) qs ≡ [] ∷ (closed 1 ∷ closed 2 ∷ []) ∷ [] ∷ [])
wait_for_task_run =
    wait_for_task_from_pool-first (two_slots (Task ℕ)) [] (closed 3) 2 busy refl refl (omega arith)
      refl

-- Worker 4 is a temporary one and starts at queue 1.
-- A worker whose id is not that of a queue starts at queue 1.
wait_for_task_of_worker-busy :
    wait_for_task_of_worker (two_slots (Task ℕ)) [] 4 busy
    ≡ returns
        (returned (some (closed 1)), with_tasks busy ([] ∷ (closed 2 ∷ []) ∷ (closed 3 ∷ []) ∷ []))
unfolding wait_for_task_of_worker with_tasks try_pop_front
wait_for_task_of_worker-busy = refl

-- A worker for each of the three queues, and all queues full.
abbrev worker : ℕ → Thread
worker n = record { id = n; keep_going = true; state = running }

abbrev full_queues : List (List (Task ℕ))
full_queues =
    (closed 1 ∷ closed 2 ∷ []) ∷ (closed 3 ∷ closed 4 ∷ []) ∷ (closed 5 ∷ closed 6 ∷ []) ∷ []

abbrev full_pool : Pool (List (Task ℕ)) ℕ
full_pool = record {
  scheduler = record {
    tasks = full_queues;
    num_threads = 3;
    continue = true;
    task_count = 0;
    ran = [];
  };
  threads = worker 0 ∷ worker 1 ∷ worker 2 ∷ [];
  current_id = 0;
}

start-stop_example :
    All (Ended true) (stop true full_pool).1 × (start (stop true full_pool).0 ≡ full_pool)
start-stop_example = start-stop true full_pool (
  record { going = refl; runs = refl },
  (record { going = refl; runs = refl }, (record { going = refl; runs = refl }, tt)),
)

abbrev is_empty_list : List (Task ℕ) → Bool
is_empty_list q = length q == 0

send_task-enter_scope_example :
    send_task
      (two_slots (Task ℕ))
      []
      (some (free 7))
      1
      (enter_scope is_empty_list full_pool).1.scheduler
    ≡ undefined
send_task-enter_scope_example =
    send_task-enter_scope (two_slots (Task ℕ)) is_empty_list (λ q. refl) [] (free 7) 1 full_pool
      refl (omega arith) refl (omega arith) (omega arith, (omega arith, (omega arith, tt)))

-- Before `wait_for_scope`, a task waits for room.
send_task_waits :
    send_task (two_slots (Task ℕ)) [] (some (free 7)) 1 full_pool.scheduler
    ≡ returns (waiting, full_pool.scheduler)
unfolding send_task with_tasks try_push_back push_back
send_task_waits = refl

-- The temporary worker 5 starts behind queue 2, and finds queue 0 empty.
runner_round-loses_example :
    (qs : List (List (Task ℕ))) × (map (λ q. q) qs ≡ [] ∷ (closed 2 ∷ []) ∷ (closed 3 ∷ []) ∷ [])
    × (runner_round (two_slots (Task ℕ)) counts (true ∷ true ∷ true ∷ false ∷ []) true [] [] 5 busy
        ≡ returns (returned true, with_tasks busy qs))
runner_round-loses_example =
    runner_round-loses (two_slots (Task ℕ)) counts 1 false [] true [] [] 5 busy (closed 1)
      (closed 2 ∷ []) (omega arith) (omega arith, refl, (omega arith, refl))

-- A worker of queue 0 that is not told to stop runs the task that it finds in the next queue.
runner_round_runs :
    runner_round (two_slots (Task ℕ)) counts (true ∷ true ∷ true ∷ []) true [] [] 0 busy
    ≡ returns (
      returned true,
      record {
        tasks = [] ∷ (closed 2 ∷ []) ∷ (closed 3 ∷ []) ∷ [];
        num_threads = 3;
        continue = true;
        task_count = 0;
        ran = closed 1 ∷ [];
      },
    )
unfolding runner_round try_pop_front
runner_round_runs = refl

-- The thread that is added behind the workers of the three queues.
task_runner_drains_example :
    (s' : Scheduler (List (Task ℕ)) ℕ) × (task_runner (two_slots (Task ℕ)) counts [] 4 true 3 busy
      ≡ returns (returned tt, s'))
    × (pending (two_slots (Task ℕ)) counts [] s' ≡ [])
    × Permᴰ s'.ran (closed 1 ∷ closed 2 ∷ closed 3 ∷ [])
unfolding is_ready
task_runner_drains_example =
    task_runner_drains (two_slots (Task ℕ)) counts [] 4 3 busy refl (omega arith) (omega arith)
      ((1, refl, refl), ((2, refl, refl), ((3, refl, refl), tt))) (omega arith)

task_runner_run :
    task_runner (two_slots (Task ℕ)) counts [] 4 true 4 busy
    ≡ returns (
      returned tt,
      record {
        tasks = [] ∷ [] ∷ [] ∷ [];
        num_threads = 3;
        continue = true;
        task_count = 0;
        ran = closed 1 ∷ closed 2 ∷ closed 3 ∷ [];
      },
    )
unfolding task_runner wait_for_task_of_worker run_task try_pop_front
task_runner_run = refl

-- A worker with a latch goes on when the latch is open and no task is left.
task_runner_with_latch_run :
    task_runner_with_latch
      (two_slots (Task ℕ))
      counts
      ((false, λ q. q) ∷ [])
      9
      true
      0
      (record { tasks = [] ∷ []; num_threads = 1; continue = true; task_count = 0; ran = [] })
    ≡ returns (
      waiting,
      record { tasks = [] ∷ []; num_threads = 1; continue = true; task_count = 0; ran = [] },
    )
unfolding task_runner_with_latch wait_for_task_from_pool try_pop_front pop_front
task_runner_with_latch_run = refl
