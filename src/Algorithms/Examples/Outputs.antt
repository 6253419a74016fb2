-- ===== src/Algorithms/Examples/Outputs.antt =====
-- Runs of the algorithms that write through an output iterator, and their theorems at concrete inputs.
use mathlib.Core.List.Permᴰ
use native.Mathlib.Nat.{add_assoc, add_comm}
use function_queue.Prelude.{
  ℕ, map, length, range_from, ◌-◌, ◌+◌, ◌*◌, ◌≡◌, refl, [], ◌∷◌, some, arith, Permᴰ,
}
use function_queue.Outcome.{returns}
use function_queue.Ranges.{items, split_fixed}
use function_queue.Algorithms.Writes.{write_from}
use function_queue.Algorithms.Map.{MapFunction, parallel_map, parallel_map-eq-map}
use function_queue.Algorithms.MapPairs.{MapTwoFunction, zip_with, parallel_map_two}
use function_queue.Algorithms.InPlace.{MapInPlace, transform_in_place}
use function_queue.Algorithms.Scan.{parallel_scan, scan}
use function_queue.Algorithms.Scan.Total.{parallel_scan-eq-partial_sum}
use function_queue.Algorithms.Examples.{by_two, sample, backwards, backwards-IsSchedule}

-- A map as a loop over the items.
abbrev copying : MapFunction ℕ ℕ
copying = record {
  map_to = λ f its pos out. write_from out pos (map f its);
  map_to-writes = λ f its pos out. refl;
}

parallel_map_run :
    parallel_map copying by_two 4 backwards sample (λ x. x + 1) (0 ∷ 0 ∷ 0 ∷ 0 ∷ 0 ∷ [])
    ≡ some (5 ∷ 2 ∷ 4 ∷ 2 ∷ 6 ∷ [])
parallel_map_run =
    parallel_map-eq-map copying by_two 4 (omega arith) backwards sample (λ x. x + 1)
      (0 ∷ 0 ∷ 0 ∷ 0 ∷ 0 ∷ []) backwards-IsSchedule refl

-- The second pass leaves out the first part.
later_backwards : Permᴰ (2 ∷ 1 ∷ []) (range_from 1 (length (split_fixed 2 5 4) - 1))
unfolding split_fixed
later_backwards = Permᴰ.reverse (range_from 1 2)

parallel_scan-eq-partial_sum_example :
    parallel_scan ◌+◌ by_two 4 backwards (2 ∷ 1 ∷ []) sample (0 ∷ 0 ∷ 0 ∷ 0 ∷ 0 ∷ [])
    ≡ returns (4 ∷ 5 ∷ 8 ∷ 9 ∷ 14 ∷ [])
parallel_scan-eq-partial_sum_example =
    parallel_scan-eq-partial_sum ◌+◌ (λ a b c. add_assoc a b c) (λ a b. add_comm a b) by_two 4
      (omega arith) backwards (2 ∷ 1 ∷ []) sample (0 ∷ 0 ∷ 0 ∷ 0 ∷ 0 ∷ []) backwards-IsSchedule
      later_backwards

scan_run :
    scan ◌+◌ by_two 4 backwards
      (2 ∷ 1 ∷ [])
      (7 ∷ sample)
      (record { first = 1; last = 6 })
      (0 ∷ 0 ∷ 0 ∷ 0 ∷ 0 ∷ [])
    ≡ returns (4 ∷ 5 ∷ 8 ∷ 9 ∷ 14 ∷ [])
unfolding scan split_fixed
scan_run = refl

abbrev overwriting : MapInPlace ℕ
overwriting = record {
  map_over = λ f v s. write_from s v.first (map f (items s v));
  map_over-writes = λ f v s. refl;
}

transform_in_place_run :
    transform_in_place overwriting by_two 4 backwards (λ x. x * x) sample
    ≡ some (16 ∷ 1 ∷ 9 ∷ 1 ∷ 25 ∷ [])
unfolding transform_in_place split_fixed
transform_in_place_run = refl

abbrev pairing : MapTwoFunction ℕ ℕ ℕ
pairing = record {
  map_two_to = λ f its its2 pos out. write_from out pos (zip_with f its its2);
  map_two_to-writes = λ f its its2 pos out. refl;
}

-- The second range has one item more.
parallel_map_two_run :
    parallel_map_two pairing by_two 4 backwards sample
      (10 ∷ 20 ∷ 30 ∷ 40 ∷ 50 ∷ 60 ∷ [])
      ◌+◌
      (0 ∷ 0 ∷ 0 ∷ 0 ∷ 0 ∷ [])
    ≡ some (14 ∷ 21 ∷ 33 ∷ 41 ∷ 55 ∷ [])
unfolding parallel_map_two split_fixed
parallel_map_two_run = refl
