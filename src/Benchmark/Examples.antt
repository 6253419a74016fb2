-- ===== src/Benchmark/Examples.antt =====
-- Runs of the timed loops, with a clock whose reading number `n` is `n * n` and a function that counts.
use function_queue.Prelude.{ℕ, ◌+◌, ◌*◌, ◌≡◌, refl, [], ◌∷◌, ltb}
use function_queue.Benchmark.{
  pos, negsuc, completes, aborts, fastest, time_runs, time_valid_runs, duration,
}

abbrev clock : ℕ → ℕ
clock n = n * n

abbrev count : ℕ → ℕ × ℕ
count s = (s, s + 1)

-- The first pair of readings is the closest.
fastest_run : fastest clock 3 0 100 ≡ 1
unfolding fastest
fastest_run = refl

below_run : time_runs clock count 8 2 2 0 ≡ negsuc 2 ∷ pos 1 ∷ []
unfolding time_runs
below_run = refl

valid_run :
    time_valid_runs clock count (λ r. ltb r 2) (duration clock) 2 2 4 0 ≡ completes (9 ∷ 13 ∷ [])
unfolding time_valid_runs
valid_run = refl

-- The third result is not below 2.
abort_run : time_valid_runs clock count (λ r. ltb r 2) (duration clock) 2 3 4 0 ≡ aborts
unfolding time_valid_runs
abort_run = refl
