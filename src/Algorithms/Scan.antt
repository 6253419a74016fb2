-- ===== src/Algorithms/Scan.antt =====
-- `parallel_scan`: the results of the parts are added up in a first pass, and the outputs are written in
-- a second one.
pub mod Sums
pub mod Outputs
pub mod Total
use function_queue.Prelude.{
  ℕ, zero, suc, ◌-◌, List, [], ◌∷◌, Option, none, some, length, replicate, get_elem?, set, foldl,
  range_from, if◌then◌else◌, ◌==◌,
}
use function_queue.Outcome.{Outcome, returns, throws, undefined}
use function_queue.Ranges.{View, items, Policy}
use function_queue.Tasks.{partition_range_pos}
use function_queue.Algorithms.ForEach.{apply_from}
use function_queue.Algorithms.Writes.{write_from}

module _ {ℓ} {A : Type ℓ} (op : A → A → A) where
  -- The running results behind a start value.
  abbrev pub scan_from : A → List A → List A
  scan_from sum [] = []
  scan_from sum (x ∷ xs) = op sum x ∷ scan_from (op sum x) xs

  -- `std::partial_sum`
  abbrev pub partial_sum : List A → List A
  partial_sum [] = []
  partial_sum (x ∷ xs) = x ∷ scan_from x xs

  -- The update of one entry in `add_result`.
  abbrev pub add_value : A → Option A → Option A
  add_value value none = some value
  add_value value (some old) = some (op old value)

  -- `add_result`: the value goes into the entry of each later part.
  pub add_result : ℕ → A → List (Option A) → List (Option A)
  unfolding apply_from
  add_result pos value p1_results =
      apply_from (add_value value) (suc pos) (length p1_results - suc pos) p1_results

  -- The first part, which also writes its outputs, and reads the last one back.
  add_first : A → List A → List A → List (Option A) → List A × List (Option A)
  unfolding add_result
  add_first x rest range_out p1_results =
      let out = write_from range_out 0 (x ∷ scan_from x rest) in
      elim (get_elem? out (length rest)) [
        | none ↦ (out, p1_results)
        | some value ↦ (out, add_result 0 value p1_results)
      ]

  -- The task of a part in the first pass. The front of an empty part is undefined, and nothing is stored
  -- for it.
  pub first_pass : List A → ℕ → List A × List (Option A) → List A × List (Option A)
  unfolding add_first add_result
  first_pass [] n (range_out, p1_results) = (range_out, p1_results)
  first_pass (x ∷ rest) zero (range_out, p1_results) = add_first x rest range_out p1_results
  first_pass (x ∷ rest) (suc n) (range_out, p1_results) =
      (range_out, add_result (suc n) (foldl op x rest) p1_results)

  -- The task of a part in the second pass. An entry that is empty is not read.
  pub second_pass : List A → List (Option A) → View → ℕ → List A → List A
  second_pass range_in p1_results v n range_out = elim (get_elem? p1_results n) [
    | none ↦ range_out
    | some none ↦ range_out
    | some (some sum) ↦ write_from range_out v.first (scan_from sum (items range_in v))
  ]

  -- `order1` and `order2` are the orders in which the tasks of the two passes run. The second pass
  -- leaves out the first part.
  unfoldable pub parallel_scan : Policy → ℕ → List ℕ → List ℕ → List A → List A → Outcome (List A)
  unfolding first_pass second_pass partition_range_pos
  parallel_scan policy ts_size order1 order2 range_in range_out =
      if length range_in == length range_out
      then (if length range_in == 2
          then elim (get_elem? range_in 0) [
            | none ↦ undefined
            | some x ↦ returns (set range_out 0 x)
          ]
          else (let ranges = policy.split (length range_in) ts_size in
              let (out, p1_results) =
                partition_range_pos (λ v n s. first_pass (items range_in v) n s) ranges order1
                  (range_out, replicate (length ranges) none) in
              returns (partition_range_pos (second_pass range_in p1_results) ranges order2 out)))
      else throws

  -- `scan` on `[first, last)` and an output range of its own.
  unfoldable pub scan : Policy → ℕ → List ℕ → List ℕ → List A → View → List A → Outcome (List A)
  unfolding parallel_scan
  scan policy ts_size order1 order2 xs range range_out =
      parallel_scan policy ts_size order1 order2 (items xs range) range_out
