-- ===== src/Algorithms/InPlace.antt =====
-- The `transform` of include/daw/fs/algorithms.h that writes over its input: `parallel_map` with the
-- start of the range as its output.
use function_queue.Prelude.{
  ℕ, zero, suc, ◌+◌, ◌-◌, ◌<◌, ◌≤◌, ◌≡◌, refl, sym, ap, ap₂, ◌∙◌, List, [], ◌∷◌, ◌++◌, map, Option,
  none, some, arith, length, take, drop, length-take, modify, set-modify, modify-append_length,
  length-append, append_assoc, take-append-drop, if◌then◌else◌, ◌==◌, inl, inr, le_or_lt,
}
use function_queue.Ranges.{View, items, Policy}
use function_queue.Tasks.{IsSchedule, partition_range_by, wait}
use function_queue.Algorithms.Writes.{write_from, items-beyond}
use function_queue.Algorithms.ForEach.{
  parallel_for_each, parallel_for_each-eq-map, apply_from, for_each_part,
}

-- `daw::algorithm::map` of the dependency when the output is the input: it has read an item before it
-- writes the result to its place.
pub record MapInPlace {ℓ} (A : Type ℓ) : Type ℓ where
  pub map_over : (A → A) → View → List A → List A
  pub map_over-writes :
      (f : A → A) (v : View) (s : List A)
      → map_over f v s ≡ write_from s v.first (map f (items s v))

module _ {ℓ} {A : Type ℓ} (algorithm : MapInPlace A) where
  -- The output of a part starts as far behind `first` as the part does: at the part.
  map_part_in_place : (A → A) → View → List A → List A
  map_part_in_place unary_op v xs =
      let step = v.first - 0 in
      algorithm.map_over unary_op (record { first = 0 + step; last = v.last }) xs

  -- `none`: the caller waits forever.
  unfoldable pub transform_in_place : Policy → ℕ → List ℕ → (A → A) → List A → Option (List A)
  unfolding map_part_in_place partition_range_by wait
  transform_in_place policy ts_size order unary_op xs =
      let (sem, ys) =
        partition_range_by policy.split (map_part_in_place unary_op) (length xs) ts_size order xs in
      wait sem ys

  apply_from-nil :
      (f : A → A) (first rounds : ℕ) (xs : List A)
      → length xs ≤ first
      → apply_from f first rounds xs ≡ xs
  unfolding apply_from
  apply_from-nil f first zero xs h = refl
  apply_from-nil f first (suc rounds) xs h =
      ap (apply_from f (suc first) rounds) (beyond xs first h)
      ∙ apply_from-nil f (suc first) rounds xs (omega arith)
    where
      beyond : (l : List A) (k : ℕ) → length l ≤ k → modify l k f ≡ l
      beyond [] k le = refl
      beyond (x ∷ l) zero le = absurd (omega arith)
      beyond (x ∷ l) (suc k) le = ap (◌∷◌ x) (beyond l k (omega arith))

  write_from-apply_from :
      (f : A → A) (pre xs : List A) (n : ℕ)
      → write_from (pre ++ xs) (length pre) (map f (take n xs))
        ≡ apply_from f (length pre) n (pre ++ xs)
  unfolding apply_from
  write_from-apply_from f pre xs zero = refl
  write_from-apply_from f pre [] (suc n) =
      sym (apply_from-nil f (length pre) (suc n) (pre ++ []) (omega (arith, length-append pre [])))
  write_from-apply_from f pre (x ∷ xs) (suc n) =
      let at : suc (length pre) ≡ length (pre ++ f x ∷ []) =
        omega (arith, length-append pre (f x ∷ [])) in
      let out = modify-append_length pre x xs (λ _. f x) ∙ sym (append_assoc pre (f x ∷ []) xs) in
      ap₂ (λ o k. write_from o k (map f (take n xs)))
        (set-modify (pre ++ x ∷ xs) (length pre) (f x) ∙ out) at
      ∙ write_from-apply_from f (pre ++ f x ∷ []) xs n
      ∙ ap₂ (λ o k. apply_from f k n o)
          (append_assoc pre (f x ∷ []) xs ∙ sym (modify-append_length pre x xs f)) (sym at)

  -- A part is mapped as `for_each` does it.
  map_part-for_each_part :
      (f : A → A) (v : View) (s : List A) → map_part_in_place f v s ≡ for_each_part f v s
  unfolding map_part_in_place for_each_part
  map_part-for_each_part f v s = elim (le_or_lt v.first (length s)) [
    | inl le ↦
        let at : v.first ≡ length (take v.first s) = omega (arith, length-take v.first s) in
        ap (λ k. algorithm.map_over f (record { first = k; last = v.last }) s) (omega arith)
        ∙ algorithm.map_over-writes f v s
        ∙ ap₂ (λ o k. write_from o k (map f (items s v))) (sym (take-append-drop v.first s)) at
        ∙ write_from-apply_from f (take v.first s) (drop v.first s) (v.last - v.first)
        ∙ ap₂ (λ k o. apply_from f k (v.last - v.first) o) (sym at) (take-append-drop v.first s)
    | inr gt ↦
        ap (λ k. algorithm.map_over f (record { first = k; last = v.last }) s) (omega arith)
        ∙ algorithm.map_over-writes f v s
        ∙ ap (λ l. write_from s v.first (map f l)) (items-beyond s v gt)
        ∙ sym (apply_from-nil f v.first (v.last - v.first) s (omega arith))
  ]

  -- `transform` over its own input returns with the result of the function in the place of each item,
  -- when the range is not empty, for every policy, every positive number of queues and every order in
  -- which the tasks run. On an empty range it never returns.
  pub transform_in_place-eq-map :
      (policy : Policy) (ts_size : ℕ)
      → 0 < ts_size
      → (order : List ℕ) (f : A → A) (xs : List A)
      → IsSchedule (policy.split (length xs) ts_size) order
      → transform_in_place policy ts_size order f xs
        ≡ (if length xs == 0 then none else some (map f xs))
  unfolding transform_in_place parallel_for_each
  transform_in_place-eq-map policy ts_size workers order f xs p =
      ap
        (λ part.
          let (sem, ys) = partition_range_by policy.split part (length xs) ts_size order xs in
          wait sem ys)
        (λ i v s. map_part-for_each_part f v s i)
      ∙ parallel_for_each-eq-map policy ts_size workers order f xs p
