-- ===== src/Algorithms/FrontEnds.antt =====
-- The front ends of include/daw/fs/algorithms.h, which call an algorithm on the items between two
-- iterators. A store has the items; `first` and `last` are offsets in it.
use function_queue.Prelude.{
  ℕ, ◌+◌, ◌-◌, ◌≤◌, ◌<◌, ◌≡◌, ap, Bool, List, ◌++◌, Option, none, some, arith, length, take, drop,
  length-append, length-take, length-drop, length-perm, Permᴰ,
}
use function_queue.Outcome.{Outcome, returns, ◌>>=◌}
use function_queue.Ranges.{View, items, Policy}
use function_queue.Algorithms.Reduce.{parallel_reduce, parallel_map_reduce}
use function_queue.Algorithms.Count.{parallel_count}
use function_queue.Algorithms.Find.{parallel_find_if}
use function_queue.Algorithms.MinMax.{
  Iterator, IsStrictWeakOrder, parallel_min_element, parallel_max_element,
}
use function_queue.Algorithms.ForEach.{parallel_for_each}
use function_queue.Algorithms.Sort.{parallel_sort}
use function_queue.Algorithms.Sort.Sorted.{IsSorted, Sorts, parallel_sort-IsSorted}

module _ {ℓ} {A : Type ℓ} where
  -- The store after an algorithm has left other items in the range.
  abbrev pub splice : List A → View → List A → List A
  splice xs range ys = take range.first xs ++ (ys ++ drop range.last xs)

  -- `for_each`; `none`: the caller waits forever.
  unfoldable pub for_each : Policy → ℕ → List ℕ → (A → A) → List A → View → Option (List A)
  unfolding parallel_for_each
  for_each policy ts_size order unary_op xs range =
      elim (parallel_for_each policy ts_size order unary_op (items xs range)) [
        | none ↦ none
        | some ys ↦ some (splice xs range ys)
      ]

  -- `sort` and `stable_sort`, by the sort of the standard library that they give to `parallel_sort`.
  unfoldable pub sort :
      (A → A → Bool) → Policy → ℕ → (List A → List A) → List A → View → Outcome (List A)
  unfolding parallel_sort
  sort comp policy ts_size sorter xs range =
      parallel_sort comp policy ts_size sorter (items xs range) >>= λ ys.
      returns (splice xs range ys)

  -- `reduce` with an initial value; without an operation, it is called with `std::plus`.
  unfoldable pub reduce : Policy → ℕ → List ℕ → (A → A → A) → A → List A → View → Outcome A
  unfolding parallel_reduce
  reduce policy ts_size order binary_op init xs range =
      parallel_reduce policy ts_size order binary_op init (items xs range)

  -- The iterator that was found is an offset in the range, and comes back as one in the store.
  abbrev pub from_first : View → Option (Iterator A) → Option (Iterator A)
  from_first range none = none
  from_first range (some (i, x)) = some (range.first + i, x)

  unfoldable pub min_element :
      Policy → ℕ → List ℕ → (A → A → Bool) → List A → View → Outcome (Option (Iterator A))
  unfolding parallel_min_element
  min_element policy ts_size order comp xs range =
      parallel_min_element policy ts_size order comp (items xs range) >>= λ r.
      returns (from_first range r)

  unfoldable pub max_element :
      Policy → ℕ → List ℕ → (A → A → Bool) → List A → View → Outcome (Option (Iterator A))
  unfolding parallel_max_element
  max_element policy ts_size order comp xs range =
      parallel_max_element policy ts_size order comp (items xs range) >>= λ r.
      returns (from_first range r)

  unfoldable pub find_if : Policy → ℕ → List ℕ → (A → Bool) → List A → View → ℕ
  unfolding parallel_find_if
  find_if policy ts_size order pred xs range =
      range.first + parallel_find_if policy ts_size order pred (items xs range)

  unfoldable pub count_if : Policy → ℕ → List ℕ → (A → Bool) → List A → View → Outcome ℕ
  unfolding parallel_count
  count_if policy ts_size order pred xs range =
      parallel_count policy ts_size order pred (items xs range)

module _ {ℓ κ} {A : Type ℓ} {B : Type κ} where
  -- `map_reduce` with an initial value.
  unfoldable pub map_reduce_from :
      Policy → ℕ → List ℕ → A → (A → B) → (B → B → B) → List A → View → Outcome B
  unfolding parallel_map_reduce
  map_reduce_from policy ts_size order init map_function reduce_function xs range =
      parallel_map_reduce policy ts_size order map_function reduce_function init (items xs range)

module _ {ℓ} {A : Type ℓ} (cmp : A → A → Bool) where
  -- `sort` leaves the items of the range sorted, and every item outside it in its place.
  pub sort-splice :
      IsStrictWeakOrder cmp
      → (policy : Policy) (ts_size : ℕ) → 0 < policy.min_range_size
      → 0 < ts_size
      → (sorter : List A → List A) → Sorts cmp sorter
      → (xs : List A) (range : View) → range.first ≤ range.last
      → range.last ≤ length xs
      → (ys : List A) × (sort cmp policy ts_size sorter xs range ≡ returns (splice xs range ys))
        × IsSorted cmp ys
        × Permᴰ ys (items xs range)
        × (length (splice xs range ys) ≡ length xs)
  unfolding sort
  sort-splice w policy ts_size some_items workers sorter s xs range a b =
      let (ys, ran, sorted, same) =
        parallel_sort-IsSorted cmp w policy ts_size some_items workers sorter s (items xs range) in
      (
        ys,
        ap (λ o. o >>= λ ys. returns (splice xs range ys)) ran,
        sorted,
        same,
        omega (
          arith,
          length-append (take range.first xs) (ys ++ drop range.last xs),
          length-append ys (drop range.last xs),
          length-perm same,
          length-take range.first xs,
          length-drop range.last xs,
          length-take (range.last - range.first) (drop range.first xs),
          length-drop range.first xs,
        ),
      )
