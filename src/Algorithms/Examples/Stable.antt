-- ===== src/Algorithms/Examples/Stable.antt =====
-- Runs of a stable sort: pairs that are sorted by their first number.
use function_queue.Prelude.{ℕ, ◌≡◌, refl, sym, ap, ◌∙◌, Bool, List, [], ◌∷◌, ◌++◌, arith, ltb}
use function_queue.Outcome.{returns}
use function_queue.Ranges.{split_fixed}
use function_queue.Futures.Reduction.{reduce_futures, combine}
use function_queue.Algorithms.MinMax.{IsStrictWeakOrder}
use function_queue.Algorithms.Sort.{parallel_sort}
use function_queue.Algorithms.Sort.Sorted.{IsSorted}
use function_queue.Algorithms.Sort.Stable.{
  select, select-append, equivalent, KeepsOrder, StablySorts, merge-select,
  parallel_sort-KeepsOrder,
}
use function_queue.Algorithms.Examples.{by_two, insertion_sort, insertion_sort-Sorts}

abbrev by_key : ℕ × ℕ → ℕ × ℕ → Bool
by_key a b = ltb a.0 b.0

by_key-IsStrictWeakOrder : IsStrictWeakOrder by_key
by_key-IsStrictWeakOrder = record {
  irrefl = λ a. ground arith;
  trans = λ a b c p q. ground arith;
  negative_trans = λ a b c p q. ground arith;
}

module _ {ℓ} {A : Type ℓ} (cmp : A → A → Bool) (w : IsStrictWeakOrder cmp) where
  insertion_sort-KeepsOrder : (l : List A) → KeepsOrder cmp (insertion_sort cmp l) l
  unfolding insertion_sort
  insertion_sort-KeepsOrder [] a = refl
  insertion_sort-KeepsOrder (x ∷ xs) a =
      merge-select cmp w (x ∷ []) (insertion_sort cmp xs) (tt, tt) a
      ∙ ap (◌++◌ (select (equivalent cmp a) (x ∷ []))) (insertion_sort-KeepsOrder xs a)
      ∙ sym (select-append (equivalent cmp a) (x ∷ []) xs)

  insertion_sort-StablySorts : StablySorts cmp (insertion_sort cmp)
  insertion_sort-StablySorts = (insertion_sort-Sorts cmp w, insertion_sort-KeepsOrder)

abbrev entries : List (ℕ × ℕ)
entries = (4, 0) ∷ (1, 1) ∷ (4, 2) ∷ (1, 3) ∷ (4, 4) ∷ []

parallel_sort-KeepsOrder_example :
    (ys : List (ℕ × ℕ)) × (parallel_sort by_key by_two 4 (insertion_sort by_key) entries
      ≡ returns ys)
    × IsSorted by_key ys
    × KeepsOrder by_key ys entries
parallel_sort-KeepsOrder_example =
    parallel_sort-KeepsOrder by_key by_key-IsStrictWeakOrder by_two 4 (omega arith) (omega arith)
      (insertion_sort by_key) (insertion_sort-StablySorts by_key by_key-IsStrictWeakOrder) entries

stable_run :
    parallel_sort by_key by_two 4 (insertion_sort by_key) entries
    ≡ returns ((1, 1) ∷ (1, 3) ∷ (4, 0) ∷ (4, 2) ∷ (4, 4) ∷ [])
unfolding parallel_sort insertion_sort split_fixed reduce_futures combine
stable_run = refl
