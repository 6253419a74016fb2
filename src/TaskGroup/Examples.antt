-- ===== src/TaskGroup/Examples.antt =====
-- Runs of a group of tasks that add to a number: the second task is not accepted, and the third throws.
use function_queue.Prelude.{ℕ, ◌+◌, ◌≡◌, refl, Bool, true, false, List, [], ◌∷◌, length, arith}
use function_queue.TaskGroup.{create_task_group, run_scheduled, run_all}
use function_queue.TaskGroup.Counting.{run_all-create_task_group}

abbrev adding : List (Bool × (ℕ → ℕ × Bool))
adding =
    (true, λ n. (n + 1, false)) ∷ (false, λ n. (n + 10, false)) ∷ (true, λ n. (n + 100, true)) ∷ []

run_all-create_task_group_example :
    (run_all (1 ∷ []) (create_task_group adding 0)).count
    ≡ length (run_all (1 ∷ []) (create_task_group adding 0)).scheduled
run_all-create_task_group_example = run_all-create_task_group adding 0 (1 ∷ []) (omega arith)

adding_run :
    run_all (1 ∷ 0 ∷ []) (create_task_group adding 0)
    ≡ record { shared = 101; count = 0; scheduled = [] }
unfolding create_task_group run_scheduled
adding_run = refl
