-- ===== src/Algorithms/Examples.antt =====
-- Runs of the algorithms, and their theorems at concrete inputs: five items in parts of two, whose
-- tasks run last part first.
mod Outputs
mod Stable
use mathlib.Core.List.Permᴰ
use native.Mathlib.Nat.{add_assoc, add_comm}
use function_queue.Prelude.{
  ℕ, map, length, range_from, ◌-◌, ◌+◌, ◌*◌, ◌≡◌, refl, Bool, false, List, [], ◌∷◌, some, arith,
  range, Permᴰ, ltb, ◌==◌,
}
use function_queue.Outcome.{returns}
use function_queue.Algorithms.FrontEnds.{splice, sort, count_if, sort-splice}
use function_queue.Ranges.{
  View, items, Policy, Tiles, split_fixed, split_fixed-Tiles, split_fixed_policy,
}
use function_queue.Tasks.{IsSchedule}
use function_queue.Futures.Reduction.{reduce_futures, combine}
use function_queue.Algorithms.Reduce.{parallel_reduce, parallel_map_reduce}
use function_queue.Algorithms.Reduce.Sequential.{
  parallel_reduce-eq-foldl, parallel_map_reduce-eq-foldl,
}
use function_queue.Algorithms.Count.{parallel_count, parallel_count-eq-count_if}
use function_queue.Algorithms.Find.{parallel_find_if, parallel_find_if-eq-find_if}
use function_queue.Algorithms.Equal.{parallel_equal, parallel_equal-eq-equal_ranges}
use function_queue.Algorithms.MinMax.{
  IsStrictWeakOrder, parallel_min_element, parallel_min_element-eq-min_element,
}
use function_queue.Algorithms.Writes.{write_from}
use function_queue.Algorithms.Map.{MapFunction, parallel_map, parallel_map-eq-map}
use function_queue.Algorithms.Scan.{parallel_scan, scan}
use function_queue.Algorithms.Scan.Total.{parallel_scan-eq-partial_sum}
use function_queue.Algorithms.Sort.{merge, parallel_sort}
use function_queue.Algorithms.Sort.Sorted.{
  IsSorted, Sorts, merge-perm, merge-IsSorted, parallel_sort-IsSorted,
}
use function_queue.Algorithms.ForEachIndex.{
  parallel_for_each_index, parallel_for_each_index-eq-foldl,
}
use function_queue.Algorithms.ForEach.{parallel_for_each, parallel_for_each-eq-map}

abbrev pub by_two : Policy
by_two = split_fixed_policy 2 (omega arith)

abbrev pub sample : List ℕ
sample = 4 ∷ 1 ∷ 3 ∷ 1 ∷ 5 ∷ []

abbrev pub backwards : List ℕ
backwards = 2 ∷ 1 ∷ 0 ∷ []

pub backwards-IsSchedule : IsSchedule (split_fixed 2 5 4) backwards
unfolding split_fixed
backwards-IsSchedule = Permᴰ.reverse (range 3)

above_two : ℕ → Bool
above_two x = ltb 2 x

ltb-IsStrictWeakOrder : IsStrictWeakOrder ltb
ltb-IsStrictWeakOrder = record {
  irrefl = λ a. ground arith;
  trans = λ a b c p q. ground arith;
  negative_trans = λ a b c p q. ground arith;
}

reduce_run : parallel_reduce by_two 4 backwards ◌+◌ 10 sample ≡ returns 24
unfolding parallel_reduce split_fixed
reduce_run = refl

split_fixed-Tiles_example : Tiles 0 (split_fixed 2 5 4) 5
split_fixed-Tiles_example = split_fixed-Tiles 2 5 4 (omega arith)

parallel_reduce-eq-foldl_example : parallel_reduce by_two 4 backwards ◌+◌ 10 sample ≡ returns 24
parallel_reduce-eq-foldl_example =
    parallel_reduce-eq-foldl ◌+◌ add_assoc by_two 4 (omega arith) backwards 10 sample
      backwards-IsSchedule

parallel_map_reduce-eq-foldl_example :
    parallel_map_reduce by_two 4 backwards (λ x. x + 1) ◌+◌ 10 sample ≡ returns 30
parallel_map_reduce-eq-foldl_example =
    parallel_map_reduce-eq-foldl (λ x. x + 1) ◌+◌ add_assoc by_two 4 (omega arith) backwards 10
      sample backwards-IsSchedule

count_run : parallel_count by_two 4 backwards above_two sample ≡ returns 3
unfolding parallel_count above_two split_fixed
count_run = refl

parallel_find_if-eq-find_if_example : parallel_find_if by_two 4 backwards (λ x. x == 1) sample ≡ 1
unfolding parallel_find_if
parallel_find_if-eq-find_if_example =
    parallel_find_if-eq-find_if by_two 4 (omega arith) backwards (λ x. x == 1) sample
      backwards-IsSchedule

parallel_equal-eq-equal_ranges_example :
    parallel_equal ltb by_two 4 backwards sample (5 ∷ 2 ∷ 4 ∷ 1 ∷ 6 ∷ []) ≡ returns false
unfolding parallel_equal
parallel_equal-eq-equal_ranges_example =
    parallel_equal-eq-equal_ranges ltb by_two 4 (omega arith) backwards sample
      (5 ∷ 2 ∷ 4 ∷ 1 ∷ 6 ∷ []) backwards-IsSchedule

parallel_min_element-eq-min_element_example :
    parallel_min_element by_two 4 backwards ltb sample ≡ returns (some (1, 1))
unfolding parallel_min_element
parallel_min_element-eq-min_element_example =
    parallel_min_element-eq-min_element by_two 4 (omega arith) backwards ltb ltb-IsStrictWeakOrder
      sample backwards-IsSchedule

parallel_for_each_run :
    parallel_for_each by_two 4 backwards (λ x. x + x) sample ≡ some (8 ∷ 2 ∷ 6 ∷ 2 ∷ 10 ∷ [])
parallel_for_each_run =
    parallel_for_each-eq-map by_two 4 (omega arith) backwards (λ x. x + x) sample
      backwards-IsSchedule

module _ {ℓ} {A : Type ℓ} (cmp : A → A → Bool) where
  -- Each item is merged in front of the sorted others.
  unfoldable pub insertion_sort : List A → List A
  insertion_sort [] = []
  insertion_sort (x ∷ xs) = merge cmp (x ∷ []) (insertion_sort xs)

  pub insertion_sort-Sorts : IsStrictWeakOrder cmp → Sorts cmp insertion_sort
  unfolding insertion_sort
  insertion_sort-Sorts w [] = (tt, Permᴰ.nil)
  insertion_sort-Sorts w (x ∷ xs) =
      let (sorted, perm) = insertion_sort-Sorts w xs in
      (
        merge-IsSorted cmp w (x ∷ []) (insertion_sort xs) (tt, tt) sorted,
        Permᴰ.trans (merge-perm cmp (x ∷ []) (insertion_sort xs)) (Permᴰ.cons refl perm),
      )

sort_run : parallel_sort ltb by_two 4 (insertion_sort ltb) sample ≡ returns (1 ∷ 1 ∷ 3 ∷ 4 ∷ 5 ∷ [])
unfolding parallel_sort insertion_sort split_fixed reduce_futures combine
sort_run = refl

parallel_sort-IsSorted_example :
    (ys : List ℕ) × (parallel_sort ltb by_two 4 (insertion_sort ltb) sample ≡ returns ys)
    × IsSorted ltb ys
    × Permᴰ ys sample
parallel_sort-IsSorted_example =
    parallel_sort-IsSorted ltb ltb-IsStrictWeakOrder by_two 4 (omega arith) (omega arith)
      (insertion_sort ltb) (insertion_sort-Sorts ltb ltb-IsStrictWeakOrder) sample

-- The four items in the middle.
abbrev middle : View
middle = record { first = 1; last = 5 }

splice_run :
    (ys : List ℕ) × (sort ltb by_two 4 (insertion_sort ltb) sample middle
      ≡ returns (splice sample middle ys))
    × IsSorted ltb ys
    × Permᴰ ys (items sample middle)
    × (length (splice sample middle ys) ≡ 5)
splice_run =
    sort-splice ltb ltb-IsStrictWeakOrder by_two 4 (omega arith) (omega arith) (insertion_sort ltb)
      (insertion_sort-Sorts ltb ltb-IsStrictWeakOrder) sample middle (omega arith) (omega arith)

front_end_sort_run :
    sort ltb by_two 4 (insertion_sort ltb) sample middle ≡ returns (4 ∷ 1 ∷ 1 ∷ 3 ∷ 5 ∷ [])
unfolding sort insertion_sort split_fixed reduce_futures combine
front_end_sort_run = refl

front_end_count_run : count_if by_two 4 (1 ∷ 0 ∷ []) above_two sample middle ≡ returns 2
unfolding count_if split_fixed above_two
front_end_count_run = refl

-- Each call adds the square of its index.
for_each_index_run : parallel_for_each_index (λ n t. t + n * n) by_two 4 backwards 5 100 ≡ some 130
unfolding parallel_for_each_index split_fixed
for_each_index_run = refl
