-- ===== src/Algorithms/Sort.antt =====
-- `parallel_sort` with `parallel_sort_merger`. The parts of the array are disjoint, so a part travels
-- with the items that its iterators show: what a task leaves in the array between them.
pub mod Sorted
pub mod Stable
use function_queue.Prelude.{
  ℕ, ◌≡◌, Bool, true, false, List, [], ◌∷◌, map, length, ltb, ◌==◌, if◌then◌else◌,
}
use function_queue.Outcome.{Outcome, returns, throws, undefined, ◌>>=◌}
use function_queue.Ranges.{View, items, Policy}
use function_queue.Futures.Expected.{Expected, value, exception}
use function_queue.Futures.Reduction.{combine, reduce_futures}

pub record Block {ℓ} (A : Type ℓ) : Type ℓ where
  pub view : View
  pub contents : List A

module _ {ℓ} {A : Type ℓ} (cmp : A → A → Bool) where
  -- `std::inplace_merge`: of two items that are not in order either way, the left one goes first.
  unfoldable pub merge : List A → List A → List A
  merge [] ys = ys
  merge (x ∷ xs) [] = x ∷ xs
  merge (x ∷ xs) (y ∷ ys) = elim (cmp y x) [
    | true ↦ y ∷ merge (x ∷ xs) ys
    | false ↦ x ∷ merge xs (y ∷ ys)
  ]

  -- The precondition is checked first: the ranges must be contiguous.
  pub parallel_sort_merger : Block A → Block A → Expected (Block A)
  unfolding merge
  parallel_sort_merger rng_left rng_right =
      if rng_left.view.last == rng_right.view.first
      then value (record {
        view = record { first = rng_left.view.first; last = rng_right.view.last };
        contents = merge rng_left.contents rng_right.contents;
      })
      else exception

  -- `sort_fn`: the given sort on the items of a part.
  unfoldable pub sort_fn : (List A → List A) → List A → View → Expected (Block A)
  sort_fn srt xs r = value (record { view = r; contents = srt (items xs r) })

  -- What the array holds when the last future is set. (`throws` stands for a merge that was refused.)
  unfoldable pub sorted_contents : Expected (Block A) → Outcome (List A)
  sorted_contents (value b) = returns b.contents
  sorted_contents exception = throws

  unfoldable pub parallel_sort : Policy → ℕ → (List A → List A) → List A → Outcome (List A)
  unfolding sort_fn parallel_sort_merger sorted_contents
  parallel_sort policy ts_size srt xs =
      if ltb (length xs) policy.min_range_size
      then returns (srt xs)
      else reduce_futures (combine parallel_sort_merger)
          (map (sort_fn srt xs) (policy.split (length xs) ts_size))
        >>= sorted_contents
