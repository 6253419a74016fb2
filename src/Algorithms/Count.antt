-- ===== src/Algorithms/Count.antt =====
-- `parallel_count`, which `count_if` and `count` of include/daw/fs/algorithms.h call.
use function_queue.Prelude.{
  ℕ, ◌+◌, ◌<◌, ◌≡◌, ap, Bool, List, [], ◌∷◌, ◌++◌, map, arith, length, replicate, ltb,
  if◌then◌else◌, foldl, flatten, set,
}
use function_queue.Outcome.{Outcome, returns, throws}
use function_queue.Ranges.{View, items, Policy, flatten-items}
use function_queue.Tasks.{IsSchedule, partition_range_pos, results-of_schedule}

module _ {ℓ} {A : Type ℓ} where
  -- `std::count_if`
  pub count_if : (A → Bool) → List A → ℕ
  count_if pred [] = 0
  count_if pred (x ∷ xs) = (if pred x then 1 else 0) + count_if pred xs

  unfoldable pub parallel_count : Policy → ℕ → List ℕ → (A → Bool) → List A → Outcome ℕ
  unfolding count_if partition_range_pos
  parallel_count policy ts_size order pred xs =
      if ltb (length xs) 2
      then throws
      else if ltb (length xs) policy.min_range_size
      then returns (count_if pred xs)
      else let ranges = policy.split (length xs) ts_size in
        let results =
          partition_range_pos (λ v n r. set r n (count_if pred (items xs v))) ranges order
            (replicate (length ranges) 0) in
        returns (foldl ◌+◌ 0 results)

  count_if-append :
      (pred : A → Bool) (xs ys : List A)
      → count_if pred (xs ++ ys) ≡ count_if pred xs + count_if pred ys
  unfolding count_if
  count_if-append pred [] ys = omega arith
  count_if-append pred (x ∷ xs) ys = omega (arith, count_if-append pred xs ys)

  sum-count_if :
      (pred : A → Bool) (xs : List A) (vs : List View) (acc : ℕ)
      → foldl ◌+◌ acc (map (λ v. count_if pred (items xs v)) vs)
        ≡ acc + count_if pred (flatten (map (items xs) vs))
  unfolding count_if
  sum-count_if pred xs [] acc = omega arith
  sum-count_if pred xs (v ∷ vs) acc = omega (
    arith,
    sum-count_if pred xs vs (acc + count_if pred (items xs v)),
    count_if-append pred (items xs v) (flatten (map (items xs) vs)),
  )

  -- `parallel_count` throws on fewer than two items; on others it returns the number of items that
  -- satisfy the predicate, for every policy, every positive number of queues and every order in which
  -- the tasks run.
  pub parallel_count-eq-count_if :
      (policy : Policy) (ts_size : ℕ)
      → 0 < ts_size
      → (order : List ℕ) (pred : A → Bool) (xs : List A)
      → IsSchedule (policy.split (length xs) ts_size) order
      → parallel_count policy ts_size order pred xs
        ≡ (if ltb (length xs) 2 then throws else returns (count_if pred xs))
  unfolding parallel_count
  parallel_count-eq-count_if policy ts_size workers order pred xs p =
      let ranges = policy.split (length xs) ts_size in
      ground (
        arith,
        ap (foldl ◌+◌ 0) (results-of_schedule (λ v. count_if pred (items xs v)) 0 ranges order p),
        sum-count_if pred xs ranges 0,
        ap (count_if pred)
            (flatten-items xs 0 ranges (policy.split-Tiles (length xs) ts_size workers)),
      )
