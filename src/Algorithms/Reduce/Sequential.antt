-- ===== src/Algorithms/Reduce/Sequential.antt =====
-- Every schedule reduces to the value of the sequential loop, for an associative operation.
use function_queue.Prelude.{
  ℕ, ◌<◌, ◌≡◌, refl, sym, ap, ◌∙◌, List, [], ◌∷◌, map, none, some, Option, arith, length, ltb,
  if◌then◌else◌, foldl, foldl-append, flatten,
}
use function_queue.Outcome.{returns, throws}
use function_queue.Ranges.{View, items, Tiles, Policy, items-cons, flatten-items}
use function_queue.Tasks.{IsSchedule, results-of_schedule}
use function_queue.Algorithms.Reduce.{
  reduce_part, fold_results, fold_results_from_first, parallel_reduce, parallel_map_reduce,
}

module _ {ℓ κ} {A : Type ℓ} {B : Type κ} (f : A → B) (op : B → B → B)
    (assoc : (a b c : B) → op (op a b) c ≡ op a (op b c)) where
  foldl-assoc_mapped :
      (a b : B) (xs : List A)
      → foldl (λ r y. op r (f y)) (op a b) xs ≡ op a (foldl (λ r y. op r (f y)) b xs)
  foldl-assoc_mapped a b [] = refl
  foldl-assoc_mapped a b (x ∷ xs) =
      ap (λ c. foldl (λ r y. op r (f y)) c xs) (assoc a b (f x))
      ∙ foldl-assoc_mapped a (op b (f x)) xs

  fold_results-append :
      (acc : B) (x : A) (ys : List A) (rs : List (Option B))
      → fold_results op acc (reduce_part f op (x ∷ ys) ∷ rs)
        ≡ fold_results op (foldl (λ r y. op r (f y)) acc (x ∷ ys)) rs
  unfolding fold_results reduce_part
  fold_results-append acc x ys rs =
      ap (λ c. fold_results op c rs) (sym (foldl-assoc_mapped acc (f x) ys))

  -- The results of the parts, folded in, give the fold of all the items.
  pub fold_results-parts :
      (xs : List A) (a : ℕ) (vs : List View)
      → Tiles a vs (length xs)
      → (acc : B)
      → fold_results op acc (map (λ v. reduce_part f op (items xs v)) vs)
        ≡ returns (foldl (λ r y. op r (f y)) acc (flatten (map (items xs) vs)))
  unfolding fold_results
  fold_results-parts xs a [] t acc = refl
  fold_results-parts xs a (v ∷ vs) t acc =
      let (x, ys, e) = items-cons xs a v vs t in
      let rest = map (λ w. reduce_part f op (items xs w)) vs in
      ap (λ l. fold_results op acc (reduce_part f op l ∷ rest)) e
      ∙ fold_results-append acc x ys rest
      ∙ fold_results-parts xs v.last vs t.2 (foldl (λ r y. op r (f y)) acc (x ∷ ys))
      ∙ ap
          (λ l. returns (
            foldl (λ r y. op r (f y)) (foldl (λ r y. op r (f y)) acc l)
              (flatten (map (items xs) vs))))
          (sym e)
      ∙ ap returns
          (sym (foldl-append (λ r y. op r (f y)) acc (items xs v) (flatten (map (items xs) vs))))

  pub fold_results-all :
      (xs : List A) (vs : List View)
      → Tiles 0 vs (length xs)
      → (acc : B)
      → fold_results op acc (map (λ v. reduce_part f op (items xs v)) vs)
        ≡ returns (foldl (λ r y. op r (f y)) acc xs)
  fold_results-all xs vs t acc =
      fold_results-parts xs 0 vs t acc
      ∙ ap (λ l. returns (foldl (λ r y. op r (f y)) acc l)) (flatten-items xs 0 vs t)

module _ {ℓ} {A : Type ℓ} (op : A → A → A) (assoc : (a b c : A) → op (op a b) c ≡ op a (op b c))
    (policy : Policy) (ts_size : ℕ) (workers : 0 < ts_size) (order : List ℕ) where
  -- For an associative operation, `parallel_reduce` returns the value of the sequential fold, for
  -- every policy, every positive number of queues and every order in which the tasks run.
  pub parallel_reduce-eq-foldl :
      (init : A) (xs : List A)
      → IsSchedule (policy.split (length xs) ts_size) order
      → parallel_reduce policy ts_size order op init xs ≡ returns (foldl op init xs)
  unfolding parallel_reduce
  parallel_reduce-eq-foldl init [] p = refl
  parallel_reduce-eq-foldl init (x ∷ []) p = refl
  parallel_reduce-eq-foldl init (x ∷ y ∷ zs) p =
      let xs = x ∷ y ∷ zs in
      let ranges = policy.split (length xs) ts_size in
      ground (
        arith,
        ap (fold_results op init)
            (results-of_schedule (λ v. reduce_part (λ x. x) op (items xs v)) none ranges order p),
        fold_results-all (λ x. x) op assoc xs ranges
            (policy.split-Tiles (length xs) ts_size workers) init,
      )

-- Both folds over the results agree once there is a part.
fold_results_from_first-eq {ℓ κ} :
    {A : Type ℓ} {B : Type κ} (f : A → B) (op : B → B → B) (xs : List A) (acc : B) (vs : List View)
    → Tiles 0 vs (length xs)
    → 0 < length xs
    → fold_results_from_first op acc (map (λ v. reduce_part f op (items xs v)) vs)
      ≡ fold_results op acc (map (λ v. reduce_part f op (items xs v)) vs)
unfolding fold_results_from_first
fold_results_from_first-eq f op xs acc [] t h = absurd (omega arith)
fold_results_from_first-eq f op xs acc (v ∷ vs) t h =
    same_head (reduce_part f op (items xs v)) (map (λ w. reduce_part f op (items xs w)) vs)
  where
    same_head :
        (o : Option _) (rs : List (Option _))
        → fold_results_from_first op acc (o ∷ rs) ≡ fold_results op acc (o ∷ rs)
    same_head none rs = refl
    same_head (some b) rs = refl

module _ {ℓ κ} {A : Type ℓ} {B : Type κ} (f : A → B) (op : B → B → B)
    (assoc : (a b c : B) → op (op a b) c ≡ op a (op b c)) (policy : Policy) (ts_size : ℕ)
    (workers : 0 < ts_size) (order : List ℕ) where
  -- `parallel_map_reduce` throws on fewer than two items; on others, for an associative operation,
  -- it returns what the sequential loop returns, for every policy, every positive number of queues
  -- and every order in which the tasks run.
  pub parallel_map_reduce-eq-foldl :
      (init : A) (xs : List A)
      → IsSchedule (policy.split (length xs) ts_size) order
      → parallel_map_reduce policy ts_size order f op init xs
        ≡ (if ltb (length xs) 2 then throws else returns (foldl (λ r y. op r (f y)) (f init) xs))
  unfolding parallel_map_reduce
  parallel_map_reduce-eq-foldl init [] p = refl
  parallel_map_reduce-eq-foldl init (x ∷ []) p = refl
  parallel_map_reduce-eq-foldl init (x ∷ y ∷ zs) p =
      let xs = x ∷ y ∷ zs in
      let ranges = policy.split (length xs) ts_size in
      let tiles = policy.split-Tiles (length xs) ts_size workers in
      ground (
        arith,
        ap (fold_results_from_first op (f init))
            (results-of_schedule (λ v. reduce_part f op (items xs v)) none ranges order p),
        fold_results_from_first-eq f op xs (f init) ranges tiles (omega arith),
        fold_results-all f op assoc xs ranges tiles (f init),
      )
