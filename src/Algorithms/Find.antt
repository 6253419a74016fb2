-- ===== src/Algorithms/Find.antt =====
-- `parallel_find_if`. An iterator is the offset of its item, and the end iterator is the length.
use function_queue.Prelude.{
  ℕ, suc, ◌+◌, ◌<◌, ◌≡◌, sym, ap, ◌∙◌, inl, inr, Bool, List, [], ◌∷◌, ◌++◌, map, Option, none, some,
  arith, length, drop, replicate, ◌==◌, if◌then◌else◌, set, modify, set-modify, Bool-cases,
  length-replicate, modify_same, drop_of_le,
}
use function_queue.Ranges.{View, items, Tiles, Policy, items-append-drop, length-items}
use function_queue.Tasks.{
  IsSchedule, partition_range_pos, partition_range_pos-slots, update_all-replicate,
}

-- The loop that returns the first iterator that is there.
first_result : ℕ → List (Option ℕ) → ℕ
first_result end [] = end
first_result end (none ∷ rs) = first_result end rs
first_result end (some it ∷ rs) = it

module _ {ℓ} {A : Type ℓ} where
  -- `std::find_if`
  pub find_if : (A → Bool) → List A → ℕ
  find_if pred [] = 0
  find_if pred (x ∷ xs) = if pred x then 0 else suc (find_if pred xs)

  -- The task of a part: its first hit is stored, unless the search came to the end of the part.
  find_part : (A → Bool) → List A → View → ℕ → List (Option ℕ) → List (Option ℕ)
  unfolding find_if
  find_part pred xs v pos results =
      let it = v.first + find_if pred (items xs v) in
      if it == v.last then results else set results pos (some it)

  unfoldable pub parallel_find_if : Policy → ℕ → List ℕ → (A → Bool) → List A → ℕ
  unfolding find_part first_result partition_range_pos
  parallel_find_if policy ts_size order pred xs =
      let ranges = policy.split (length xs) ts_size in
      let results =
        partition_range_pos (find_part pred xs) ranges order (replicate (length ranges) none) in
      first_result (length xs) results

  find_if-append :
      (pred : A → Bool) (xs ys : List A)
      → find_if pred (xs ++ ys)
        ≡ (if find_if pred xs == length xs then length xs + find_if pred ys else find_if pred xs)
  unfolding find_if
  find_if-append pred [] ys = ground arith
  find_if-append pred (x ∷ xs) ys = ground (arith, find_if-append pred xs ys)

  hit : (A → Bool) → List A → View → Option ℕ → Option ℕ
  hit pred xs v old =
      let it = v.first + find_if pred (items xs v) in if it == v.last then old else some it

  find_part-modify :
      (pred : A → Bool) (xs : List A) (v : View) (n : ℕ) (rs : List (Option ℕ))
      → find_part pred xs v n rs ≡ modify rs n (hit pred xs v)
  unfolding find_part hit
  find_part-modify pred xs v n rs =
      elim (Bool-cases (v.first + find_if pred (items xs v) == v.last)) [
        | inl e ↦ rw (e, hit) (sym (modify_same rs n))
        | inr e ↦ rw (e, hit) (set-modify rs n (some (v.first + find_if pred (items xs v))))
      ]

  results-find :
      (pred : A → Bool) (xs : List A) (ranges : List View) (order : List ℕ)
      → IsSchedule ranges order
      → partition_range_pos (find_part pred xs) ranges order (replicate (length ranges) none)
        ≡ map (λ v. hit pred xs v none) ranges
  results-find pred xs ranges order p =
      ap (λ w. partition_range_pos w ranges order (replicate (length ranges) none))
        (λ i v n rs. find_part-modify pred xs v n rs i)
      ∙ partition_range_pos-slots (hit pred xs) ranges order (replicate (length ranges) none) p
          (length-replicate (length ranges) none)
      ∙ update_all-replicate (hit pred xs) ranges none

  first_result-parts :
      (pred : A → Bool) (xs : List A) (a : ℕ) (vs : List View)
      → Tiles a vs (length xs)
      → first_result (length xs) (map (λ v. hit pred xs v none) vs) ≡ a + find_if pred (drop a xs)
  unfolding first_result hit find_if
  first_result-parts pred xs a [] t =
      omega (arith, ap (find_if pred) (drop_of_le a xs (omega arith)))
  first_result-parts pred xs a (v ∷ vs) t = ground (
    arith,
    first_result-parts pred xs v.last vs t.2,
    find_if-append pred (items xs v) (drop v.last xs),
    ap (find_if pred) (items-append-drop xs a v vs t),
    length-items xs a v vs t,
  )

  -- `parallel_find_if` returns the first item that satisfies the predicate, or the end of the range if
  -- there is none, for every policy, every positive number of queues and every order in which the
  -- tasks run.
  pub parallel_find_if-eq-find_if :
      (policy : Policy) (ts_size : ℕ)
      → 0 < ts_size
      → (order : List ℕ) (pred : A → Bool) (xs : List A)
      → IsSchedule (policy.split (length xs) ts_size) order
      → parallel_find_if policy ts_size order pred xs ≡ find_if pred xs
  unfolding parallel_find_if
  parallel_find_if-eq-find_if policy ts_size workers order pred xs p =
      let ranges = policy.split (length xs) ts_size in
      ap (first_result (length xs)) (results-find pred xs ranges order p)
      ∙ first_result-parts pred xs 0 ranges (policy.split-Tiles (length xs) ts_size workers)
      ∙ omega arith
