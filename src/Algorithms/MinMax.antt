-- ===== src/Algorithms/MinMax.antt =====
-- `parallel_min_element` and `parallel_max_element`. An iterator that may be dereferenced is an offset
-- with its item; `none` is the end iterator.
use function_queue.Prelude.{
  ℕ, suc, ◌<◌, ◌≡◌, refl, sym, ap, subst, ◌∙◌, Bool, true, false, List, [], ◌∷◌, ◌++◌, map, Option,
  none, some, arith, length, replicate, if◌then◌else◌, foldl, foldl-append, drop, set,
}
use function_queue.Outcome.{Outcome, returns, undefined, ◌>>=◌}
use function_queue.Ranges.{View, items, Tiles, Policy, items-cons, items-append-drop, flatten-items}
use function_queue.Tasks.{IsSchedule, partition_range_pos, results-of_schedule}
use function_queue.Algorithms.Reduce.{reduce_part, fold_results}
use function_queue.Algorithms.Reduce.Sequential.{fold_results-parts}

-- What the standard library asks of a comparison.
pub record IsStrictWeakOrder {ℓ} {A : Type ℓ} (cmp : A → A → Bool) : Type ℓ where
  pub irrefl : (a : A) → cmp a a ≡ false
  pub trans : (a b c : A) → cmp a b ≡ true → cmp b c ≡ true → cmp a c ≡ true
  pub negative_trans : (a b c : A) → cmp a b ≡ false → cmp b c ≡ false → cmp a c ≡ false

abbrev pub Iterator {ℓ} : Type ℓ → Type ℓ
Iterator A = ℕ × A

module _ {ℓ} {A : Type ℓ} where
  iterators_from : ℕ → List A → List (Iterator A)
  iterators_from i [] = []
  iterators_from i (x ∷ xs) = (i, x) ∷ iterators_from (suc i) xs

  -- The iterators of a range, its end left out.
  pub iterators : List A → List (Iterator A)
  unfolding iterators_from
  iterators xs = iterators_from 0 xs

  keep_min : (A → A → Bool) → Iterator A → Iterator A → Iterator A
  keep_min cmp smallest it = if cmp it.1 smallest.1 then it else smallest

  keep_max : (A → A → Bool) → Iterator A → Iterator A → Iterator A
  keep_max cmp largest it = if cmp largest.1 it.1 then it else largest

  -- `std::min_element` and `std::max_element`: the loop keeps the best iterator so far.
  pub min_element : (A → A → Bool) → List (Iterator A) → Option (Iterator A)
  unfolding keep_min
  min_element cmp [] = none
  min_element cmp (it ∷ its) = some (foldl (keep_min cmp) it its)

  pub max_element : (A → A → Bool) → List (Iterator A) → Option (Iterator A)
  unfolding keep_max
  max_element cmp [] = none
  max_element cmp (it ∷ its) = some (foldl (keep_max cmp) it its)

  -- The last loop, over the results of the parts: each round dereferences two of them.
  best_result :
      (Iterator A → Iterator A → Iterator A)
      → List (Option (Iterator A))
      → Outcome (Option (Iterator A))
  unfolding fold_results
  best_result keep [] = undefined
  best_result keep (none ∷ []) = returns none
  best_result keep (none ∷ r ∷ rs) = undefined
  best_result keep (some it ∷ rs) = fold_results keep it rs >>= λ best. returns (some best)

  unfoldable pub parallel_min_element :
      Policy → ℕ → List ℕ → (A → A → Bool) → List A → Outcome (Option (Iterator A))
  unfolding min_element best_result partition_range_pos iterators
  parallel_min_element policy ts_size order cmp [] = returns none
  parallel_min_element policy ts_size order cmp (x ∷ xs) =
      let its = iterators (x ∷ xs) in
      let ranges = policy.split (length (x ∷ xs)) ts_size in
      let results =
        partition_range_pos (λ v n r. set r n (min_element cmp (items its v))) ranges order
          (replicate (length ranges) none) in
      best_result (keep_min cmp) results

  unfoldable pub parallel_max_element :
      Policy → ℕ → List ℕ → (A → A → Bool) → List A → Outcome (Option (Iterator A))
  unfolding max_element best_result partition_range_pos iterators
  parallel_max_element policy ts_size order cmp [] = returns none
  parallel_max_element policy ts_size order cmp (x ∷ xs) =
      let its = iterators (x ∷ xs) in
      let ranges = policy.split (length (x ∷ xs)) ts_size in
      let results =
        partition_range_pos (λ v n r. set r n (max_element cmp (items its v))) ranges order
          (replicate (length ranges) none) in
      best_result (keep_max cmp) results

  -- Keeping the better of two iterators is associative.
  keep_min_assoc :
      (cmp : A → A → Bool)
      → IsStrictWeakOrder cmp
      → (a b c : Iterator A) → keep_min cmp (keep_min cmp a b) c ≡ keep_min cmp a (keep_min cmp b c)
  unfolding keep_min
  keep_min_assoc cmp w a b c = ground (arith, w.trans c.1 b.1 a.1, w.negative_trans c.1 b.1 a.1)

  keep_max_assoc :
      (cmp : A → A → Bool)
      → IsStrictWeakOrder cmp
      → (a b c : Iterator A) → keep_max cmp (keep_max cmp a b) c ≡ keep_max cmp a (keep_max cmp b c)
  unfolding keep_max
  keep_max_assoc cmp w a b c = ground (arith, w.trans a.1 b.1 c.1, w.negative_trans a.1 b.1 c.1)

  best_result-parts :
      (keep : Iterator A → Iterator A → Iterator A)
      → ((a b c : Iterator A) → keep (keep a b) c ≡ keep a (keep b c))
      → (its : List (Iterator A)) (vs : List View) → Tiles 0 vs (length its)
      → 0 < length its
      → best_result keep (map (λ v. reduce_part (λ x. x) keep (items its v)) vs)
        ≡ returns (reduce_part (λ x. x) keep its)
  unfolding best_result reduce_part
  best_result-parts keep assoc its [] t h = absurd (omega arith)
  best_result-parts keep assoc its (v ∷ vs) t h =
      let (x, ys, e) = items-cons its 0 v vs t in
      let rest = drop v.last its in
      let parts = map (λ w. reduce_part (λ x. x) keep (items its w)) vs in
      let whole : its ≡ x ∷ ys ++ rest =
        sym (items-append-drop its 0 v vs t) ∙ ap (λ l. l ++ rest) e in
      ap (λ l. best_result keep (reduce_part (λ x. x) keep l ∷ parts)) e
      ∙ ap (λ o. o >>= λ best. returns (some best))
          (fold_results-parts (λ x. x) keep assoc its v.last vs t.2 (foldl keep x ys)
            ∙ ap (λ l. returns (foldl keep (foldl keep x ys) l)) (flatten-items its v.last vs t.2))
      ∙ ap (λ b. returns (some b)) (sym (foldl-append keep x ys rest))
      ∙ ap (λ l. returns (reduce_part (λ x. x) keep l)) (sym whole)

  length-iterators_from : (i : ℕ) (xs : List A) → length (iterators_from i xs) ≡ length xs
  unfolding iterators_from
  length-iterators_from i [] = refl
  length-iterators_from i (x ∷ xs) = ap suc (length-iterators_from (suc i) xs)

  -- A search part by part finds what one search over the whole range finds.
  best-of_schedule :
      (keep : Iterator A → Iterator A → Iterator A)
      → ((a b c : Iterator A) → keep (keep a b) c ≡ keep a (keep b c))
      → (best : List (Iterator A) → Option (Iterator A))
      → ((l : List (Iterator A)) → best l ≡ reduce_part (λ x. x) keep l)
      → (its : List (Iterator A)) (ranges : List View) (order : List ℕ) → 0 < length its
      → Tiles 0 ranges (length its)
      → IsSchedule ranges order
      → best_result keep (
          partition_range_pos
            (λ v n r. set r n (best (items its v)))
            ranges
            order
            (replicate (length ranges) none))
        ≡ returns (best its)
  best-of_schedule keep assoc best same its ranges order h t p =
      ap (best_result keep) (results-of_schedule (λ v. best (items its v)) none ranges order p)
      ∙ ap (λ g. best_result keep (map g ranges)) (λ i v. same (items its v) i)
      ∙ best_result-parts keep assoc its ranges t h
      ∙ ap returns (sym (same its))

  min_element-reduce_part :
      (cmp : A → A → Bool) (l : List (Iterator A))
      → min_element cmp l ≡ reduce_part (λ x. x) (keep_min cmp) l
  unfolding min_element reduce_part
  min_element-reduce_part cmp [] = refl
  min_element-reduce_part cmp (it ∷ its) = refl

  max_element-reduce_part :
      (cmp : A → A → Bool) (l : List (Iterator A))
      → max_element cmp l ≡ reduce_part (λ x. x) (keep_max cmp) l
  unfolding max_element reduce_part
  max_element-reduce_part cmp [] = refl
  max_element-reduce_part cmp (it ∷ its) = refl

  -- `parallel_min_element` returns the iterator that `std::min_element` returns on the whole range
  -- (the first of the smallest items, or the end if the range is empty), for a strict weak order, every
  -- policy, every positive number of queues and every order in which the tasks run.
  pub parallel_min_element-eq-min_element :
      (policy : Policy) (ts_size : ℕ)
      → 0 < ts_size
      → (order : List ℕ) (cmp : A → A → Bool) → IsStrictWeakOrder cmp
      → (xs : List A) → IsSchedule (policy.split (length xs) ts_size) order
      → parallel_min_element policy ts_size order cmp xs ≡ returns (min_element cmp (iterators xs))
  unfolding parallel_min_element
  parallel_min_element-eq-min_element policy ts_size workers order cmp w [] p = refl
  parallel_min_element-eq-min_element policy ts_size workers order cmp w (x ∷ xs) p =
      let its = iterators (x ∷ xs) in
      let same : length (x ∷ xs) ≡ length its = sym (length-iterators_from 0 (x ∷ xs)) in
      best-of_schedule (keep_min cmp) (keep_min_assoc cmp w) (min_element cmp)
        (min_element-reduce_part cmp) its (policy.split (length (x ∷ xs)) ts_size) order
        (omega arith)
        (subst (Tiles 0 (policy.split (length (x ∷ xs)) ts_size)) same
          (policy.split-Tiles (length (x ∷ xs)) ts_size workers))
        p

  -- `parallel_max_element` returns the iterator that `std::max_element` returns on the whole range
  -- (the first of the largest items, or the end if the range is empty), for a strict weak order, every
  -- policy, every positive number of queues and every order in which the tasks run.
  parallel_max_element-eq-max_element :
      (policy : Policy) (ts_size : ℕ)
      → 0 < ts_size
      → (order : List ℕ) (cmp : A → A → Bool) → IsStrictWeakOrder cmp
      → (xs : List A) → IsSchedule (policy.split (length xs) ts_size) order
      → parallel_max_element policy ts_size order cmp xs ≡ returns (max_element cmp (iterators xs))
  unfolding parallel_max_element
  parallel_max_element-eq-max_element policy ts_size workers order cmp w [] p = refl
  parallel_max_element-eq-max_element policy ts_size workers order cmp w (x ∷ xs) p =
      let its = iterators (x ∷ xs) in
      let same : length (x ∷ xs) ≡ length its = sym (length-iterators_from 0 (x ∷ xs)) in
      best-of_schedule (keep_max cmp) (keep_max_assoc cmp w) (max_element cmp)
        (max_element-reduce_part cmp) its (policy.split (length (x ∷ xs)) ts_size) order
        (omega arith)
        (subst (Tiles 0 (policy.split (length (x ∷ xs)) ts_size)) same
          (policy.split-Tiles (length (x ∷ xs)) ts_size workers))
        p
