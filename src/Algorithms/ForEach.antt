-- ===== src/Algorithms/ForEach.antt =====
-- `parallel_for_each` on a view, which `for_each`, `for_each_n` and `fill` call. The function that is
-- applied changes the item that it is given.
use mathlib.Core.List.Permᴰ
use function_queue.Prelude.{
  replicate, Option, none, some, ℕ, zero, suc, ◌+◌, ◌-◌, ◌<◌, ◌≡◌, refl, sym, ap, ap₂, ◌∙◌, List,
  [], ◌∷◌, ◌++◌, map, arith, length, modify, modify_comm, modify-append_length, length-append,
  append_assoc, foldl, foldl-append, foldl-perm, range_from, if◌then◌else◌, ◌==◌,
}
use function_queue.Ranges.{View, Tiles, Policy, Tiles-le}
use function_queue.Tasks.{
  IsSchedule, partition_range, partition_range_by, partition_range_by-open, wait, run_from,
  partition_range-in_turn,
}

module _ {ℓ} {A : Type ℓ} where
  -- `while( first != last ) { ( *func )( *first ); ++first; }` with `rounds` rounds to go.
  unfoldable pub apply_from : (A → A) → ℕ → ℕ → List A → List A
  apply_from func first zero xs = xs
  apply_from func first (suc rounds) xs = apply_from func (suc first) rounds (modify xs first func)

  -- The task of a part.
  unfoldable pub for_each_part : (A → A) → View → List A → List A
  unfolding apply_from
  for_each_part func v xs = apply_from func v.first (v.last - v.first) xs

  -- `none`: the caller waits forever.
  unfoldable pub parallel_for_each : Policy → ℕ → List ℕ → (A → A) → List A → Option (List A)
  unfolding for_each_part partition_range_by wait
  parallel_for_each policy ts_size order func xs =
      let (sem, ys) =
        partition_range_by policy.split (for_each_part func) (length xs) ts_size order xs in
      wait sem ys

  -- `fill` assigns the value to each item.
  unfoldable pub fill : Policy → ℕ → List ℕ → A → List A → Option (List A)
  unfolding parallel_for_each
  fill policy ts_size order value xs = parallel_for_each policy ts_size order (λ _. value) xs

  apply_from-foldl :
      (func : A → A) (first rounds : ℕ) (xs : List A)
      → apply_from func first rounds xs
        ≡ foldl (λ s i. modify s i func) xs (range_from first rounds)
  unfolding apply_from
  apply_from-foldl func first zero xs = refl
  apply_from-foldl func first (suc rounds) xs =
      apply_from-foldl func (suc first) rounds (modify xs first func)

  -- Two parts may run in either order.
  for_each_part_comm :
      (func : A → A) (v w : View) (xs : List A)
      → for_each_part func w (for_each_part func v xs)
        ≡ for_each_part func v (for_each_part func w xs)
  unfolding for_each_part
  for_each_part_comm func v w xs =
      both v w
      ∙ foldl-perm m (λ s i j. modify_comm s (λ _. func) i j) (Permᴰ.append_comm (at v) (at w)) xs
      ∙ sym (both w v)
    where
      at : View → List ℕ
      at u = range_from u.first (u.last - u.first)

      m : List A → ℕ → List A
      m s i = modify s i func

      both :
          (t u : View) → for_each_part func u (for_each_part func t xs) ≡ foldl m xs (at t ++ at u)
      both t u =
          ap (for_each_part func u) (apply_from-foldl func t.first (t.last - t.first) xs)
          ∙ apply_from-foldl func u.first (u.last - u.first) (foldl m xs (at t))
          ∙ sym (foldl-append m xs (at t) (at u))

  apply_from-add :
      (func : A → A) (first i j : ℕ) (xs : List A)
      → apply_from func (first + i) j (apply_from func first i xs)
        ≡ apply_from func first (i + j) xs
  unfolding apply_from
  apply_from-add func first zero j xs =
      let e : first + 0 ≡ first = omega arith in
      let e' : j ≡ 0 + j = omega arith in ap₂ (λ a b. apply_from func a b xs) e e'
  apply_from-add func first (suc i) j xs =
      let e : first + suc i ≡ suc first + i = omega arith in
      let e' : suc (i + j) ≡ suc i + j = omega arith in
      ap (λ a. apply_from func a j (apply_from func (suc first) i (modify xs first func))) e
      ∙ apply_from-add func (suc first) i j (modify xs first func)
      ∙ ap (λ k. apply_from func first k xs) e'

  -- Part by part, the loop goes over all the items.
  run_from-apply_from :
      (func : A → A) (k a n : ℕ) (vs : List View) (xs : List A)
      → Tiles a vs n
      → run_from (λ v n. for_each_part func v) k vs xs ≡ apply_from func a (n - a) xs
  unfolding for_each_part apply_from
  run_from-apply_from func k a n [] xs t =
      let e : 0 ≡ n - a = omega arith in ap (λ r. apply_from func a r xs) e
  run_from-apply_from func k a n (v ∷ vs) xs t =
      let at : v.last ≡ a + (v.last - v.first) = omega arith in
      let all : v.last - v.first + (n - v.last) ≡ n - a = omega (arith, Tiles-le v.last n vs t.2) in
      run_from-apply_from func (suc k) v.last n vs (for_each_part func v xs) t.2
      ∙ ap₂ (λ b c. apply_from func b (n - v.last) (apply_from func c (v.last - v.first) xs)) at t.0
      ∙ apply_from-add func a (v.last - v.first) (n - v.last) xs
      ∙ ap (λ r. apply_from func a r xs) all

  pub apply_from-map :
      (func : A → A) (pre xs : List A)
      → apply_from func (length pre) (length xs) (pre ++ xs) ≡ pre ++ map func xs
  unfolding apply_from
  apply_from-map func pre [] = refl
  apply_from-map func pre (x ∷ xs) =
      ap (apply_from func (suc (length pre)) (length xs)) (modify-append_length pre x xs func)
      ∙ ap₂ (λ k l. apply_from func k (length xs) l)
          (omega (arith, length-append pre (func x ∷ []))) (sym (append_assoc pre (func x ∷ []) xs))
      ∙ apply_from-map func (pre ++ func x ∷ []) xs
      ∙ append_assoc pre (func x ∷ []) (map func xs)

  for_each_parts-map :
      (policy : Policy) (ts_size : ℕ)
      → 0 < ts_size
      → (order : List ℕ) (func : A → A) (xs : List A)
      → IsSchedule (policy.split (length xs) ts_size) order
      → partition_range (for_each_part func) (policy.split (length xs) ts_size) order xs
        ≡ map func xs
  for_each_parts-map policy ts_size workers order func xs p =
      let ranges = policy.split (length xs) ts_size in
      partition_range-in_turn (for_each_part func) (for_each_part_comm func) ranges order p xs
      ∙ run_from-apply_from func 0 0 (length xs) ranges xs
          (policy.split-Tiles (length xs) ts_size workers)
      ∙ ap (λ n. apply_from func 0 n xs) (omega arith)
      ∙ apply_from-map func [] xs

  -- `parallel_for_each` returns for each range that is not empty, having applied the function exactly
  -- once to each item, for every policy, every positive number of queues and every order in which the
  -- tasks run. For an empty range it never returns.
  pub parallel_for_each-eq-map :
      (policy : Policy) (ts_size : ℕ)
      → 0 < ts_size
      → (order : List ℕ) (func : A → A) (xs : List A)
      → IsSchedule (policy.split (length xs) ts_size) order
      → parallel_for_each policy ts_size order func xs
        ≡ (if length xs == 0 then none else some (map func xs))
  unfolding parallel_for_each partition_range_by wait
  parallel_for_each-eq-map policy ts_size workers order func [] p = refl
  parallel_for_each-eq-map policy ts_size workers order func (x ∷ xs) p =
      let l = x ∷ xs in
      ap (λ r. wait r.0 r.1)
        (partition_range_by-open policy.split (for_each_part func) (length l) ts_size order l p
          (omega arith))
      ∙ ap some (for_each_parts-map policy ts_size workers order func l p)
      ∙ ground arith

  -- `fill` on a range that is not empty returns with the value in each item, for every policy, every
  -- positive number of queues and every order in which the tasks run.
  fill-eq-replicate :
      (policy : Policy) (ts_size : ℕ)
      → 0 < ts_size
      → (order : List ℕ) (value : A) (xs : List A)
      → IsSchedule (policy.split (length xs) ts_size) order
      → 0 < length xs
      → fill policy ts_size order value xs ≡ some (replicate (length xs) value)
  unfolding fill
  fill-eq-replicate policy ts_size workers order value xs p n = ground (
    arith,
    parallel_for_each-eq-map policy ts_size workers order (λ _. value) xs p,
    map-constant xs,
  )
    where
      map-constant : (l : List A) → map (λ _. value) l ≡ replicate (length l) value
      map-constant [] = refl
      map-constant (y ∷ ys) = ap (◌∷◌ value) (map-constant ys)
