-- ===== src/Algorithms/Reduce.antt =====
-- `parallel_reduce` and `parallel_map_reduce`.
pub mod Sequential
use function_queue.Prelude.{
  ℕ, List, [], ◌∷◌, Option, none, some, length, replicate, ltb, if◌then◌else◌, foldl, set,
}
use function_queue.Outcome.{Outcome, returns, throws, undefined}
use function_queue.Ranges.{items, Policy}
use function_queue.Tasks.{partition_range_pos}

module _ {ℓ κ} {A : Type ℓ} {B : Type κ} (f : A → B) (op : B → B → B) where
  -- The task of one part: its first item, then the others in turn. The front of an empty part is
  -- undefined, and nothing is stored for it.
  unfoldable pub reduce_part : List A → Option B
  reduce_part [] = none
  reduce_part (x ∷ xs) = some (foldl (λ r y. op r (f y)) (f x) xs)

module _ {ℓ} {B : Type ℓ} (op : B → B → B) where
  -- `result = binary_op( result, *results[n] )` over the results.
  unfoldable pub fold_results : B → List (Option B) → Outcome B
  fold_results acc [] = returns acc
  fold_results acc (none ∷ rs) = undefined
  fold_results acc (some b ∷ rs) = fold_results (op acc b) rs

  -- The same loop with its first round, on `results[0]`, pulled out.
  pub fold_results_from_first : B → List (Option B) → Outcome B
  unfolding fold_results
  fold_results_from_first acc [] = undefined
  fold_results_from_first acc (none ∷ rs) = undefined
  fold_results_from_first acc (some b ∷ rs) = fold_results (op acc b) rs

module _ {ℓ} {A : Type ℓ} where
  -- The short ranges that `parallel_reduce` answers by itself.
  pub reduce_short : (A → A → A) → A → List A → A
  reduce_short op init [] = init
  reduce_short op init (x ∷ xs) = op init x

  unfoldable pub parallel_reduce : Policy → ℕ → List ℕ → (A → A → A) → A → List A → Outcome A
  unfolding reduce_part fold_results reduce_short partition_range_pos
  parallel_reduce policy ts_size order op init xs =
      if ltb (length xs) 2
      then returns (reduce_short op init xs)
      else let ranges = policy.split (length xs) ts_size in
        let results =
          partition_range_pos (λ v n r. set r n (reduce_part (λ x. x) op (items xs v))) ranges order
            (replicate (length ranges) none) in
        fold_results op init results

module _ {ℓ κ} {A : Type ℓ} {B : Type κ} where
  unfoldable pub parallel_map_reduce :
      Policy → ℕ → List ℕ → (A → B) → (B → B → B) → A → List A → Outcome B
  unfolding reduce_part fold_results_from_first partition_range_pos
  parallel_map_reduce policy ts_size order map_function reduce_function init xs =
      if ltb (length xs) 2
      then throws
      else let ranges = policy.split (length xs) ts_size in
        let results =
          partition_range_pos
            (λ v n r. set r n (reduce_part map_function reduce_function (items xs v))) ranges order
            (replicate (length ranges) none) in
        fold_results_from_first reduce_function (map_function init) results

  -- `map_reduce` without an initial value: the first item is the initial value, and the range starts
  -- behind it. (Reading the first item of an empty range is undefined.)
  unfoldable pub map_reduce : Policy → ℕ → List ℕ → (A → B) → (B → B → B) → List A → Outcome B
  unfolding parallel_map_reduce
  map_reduce policy ts_size order map_function reduce_function [] = undefined
  map_reduce policy ts_size order map_function reduce_function (x ∷ xs) =
      parallel_map_reduce policy ts_size order map_function reduce_function x xs
