-- ===== src/Algorithms/Chunked.antt =====
-- `chunked_for_each` and `chunked_for_each_pos` of include/daw/fs/algorithms.h: the function is called
-- with whole parts.
use function_queue.Prelude.{
  ℕ, ◌+◌, ◌-◌, ◌<◌, ◌≡◌, ap, ◌∙◌, List, Option, some, arith, length, length-perm, length-range_from,
}
use function_queue.Ranges.{View, Tiles, Policy}
use function_queue.Tasks.{
  IsSchedule, partition_range, partition_range_pos, wait, run_from, partition_range_pos-in_turn,
}

module _ {ℓ} {S : Type ℓ} where
  -- The latch starts at the number of parts, and each task notifies it once.
  unfoldable pub chunked_for_each : Policy → ℕ → List ℕ → (View → S → S) → ℕ → S → Option S
  unfolding partition_range wait
  chunked_for_each policy ts_size order func size s =
      let ranges = policy.split size ts_size in
      wait (length ranges - length order) (partition_range func ranges order s)

  -- The latch starts at 0, and is counted up for each part.
  unfoldable pub chunked_for_each_pos : Policy → ℕ → List ℕ → (View → ℕ → S → S) → ℕ → S → Option S
  unfolding partition_range_pos wait
  chunked_for_each_pos policy ts_size order func size s =
      let ranges = policy.split size ts_size in
      wait (0 + length ranges - length order) (partition_range_pos func ranges order s)

  -- For a function whose calls may be exchanged, `chunked_for_each_pos` comes back, having called it
  -- with each part and its number in turn, the parts being contiguous and the whole range, and
  -- `chunked_for_each` does the same without the number, also on an empty range, for every policy, every
  -- positive number of queues and every order in which the tasks run.
  pub chunked_for_each_pos-in_turn :
      (policy : Policy) (ts_size : ℕ)
      → 0 < ts_size
      → (order : List ℕ) (func : View → ℕ → S → S)
      → ((v w : View) (m n : ℕ) (s : S) → func w n (func v m s) ≡ func v m (func w n s))
      → (size : ℕ) (s : S) → IsSchedule (policy.split size ts_size) order
      → (chunked_for_each_pos policy ts_size order func size s
          ≡ some (run_from func 0 (policy.split size ts_size) s))
        × (chunked_for_each policy ts_size order (λ v. func v 0) size s
            ≡ some (run_from (λ v n. func v 0) 0 (policy.split size ts_size) s))
        × Tiles 0 (policy.split size ts_size) size
  unfolding chunked_for_each chunked_for_each_pos wait partition_range
  chunked_for_each_pos-in_turn policy ts_size workers order func comm size s p =
      let ranges = policy.split size ts_size in
      let open_latch : length ranges - length order ≡ 0 =
        omega (arith, length-perm p, length-range_from 0 (length ranges)) in
      let open_pos : 0 + length ranges - length order ≡ 0 = omega (arith, open_latch) in
      (
        ap (λ c. wait c (partition_range_pos func ranges order s)) open_pos
            ∙ ap some (partition_range_pos-in_turn func comm ranges order p s),
        ap (λ c. wait c (partition_range (λ v. func v 0) ranges order s)) open_latch
            ∙ ap some (
                partition_range_pos-in_turn (λ v n. func v 0) (λ v w m n. comm v w 0 0) ranges order
                  p s),
        policy.split-Tiles size ts_size workers,
      )
