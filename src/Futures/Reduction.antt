-- ===== src/Futures/Reduction.antt =====
-- `reduce_futures2` and `reduce_futures` of include/daw/fs/future_result.h. A future stands here for
-- what it will hold when its task has run.
use function_queue.Prelude.{
  ℕ, zero, suc, ◌+◌, ◌≤◌, ◌<◌, ◌≡◌, refl, sym, ap, ◌∙◌, List, [], ◌∷◌, arith, length, foldl,
}
use function_queue.Outcome.{Outcome, returns, undefined}
use function_queue.Futures.Expected.{Expected, value, exception, and_then}

-- `l_it->next( … )`: the operation runs on the value of the left future and `r->get( )`, which throws
-- what the right one holds.
unfoldable pub combine {ℓ} :
    {A : Type ℓ} → (A → A → Expected A) → Expected A → Expected A → Expected A
combine binary_op l r = and_then l (λ a. and_then r (binary_op a))

module _ {ℓ} {F : Type ℓ} (op : F → F → F) where
  -- One round: neighbours are combined, and the last of an odd number is passed on.
  unfoldable pub reduce_futures2 : List F → List F
  reduce_futures2 [] = []
  reduce_futures2 (x ∷ []) = x ∷ []
  reduce_futures2 (x ∷ y ∷ rest) = op x y ∷ reduce_futures2 rest

  -- `while( results.size( ) > 1 )`, and `results.front( )` behind it, which is undefined for an empty
  -- vector. `undefined` also stands for a loop that has not ended when the fuel has.
  reduce_rounds : ℕ → List F → Outcome F
  unfolding reduce_futures2
  reduce_rounds fuel [] = undefined
  reduce_rounds fuel (x ∷ []) = returns x
  reduce_rounds zero (x ∷ y ∷ rest) = undefined
  reduce_rounds (suc fuel) (x ∷ y ∷ rest) = reduce_rounds fuel (reduce_futures2 (x ∷ y ∷ rest))

  unfoldable pub reduce_futures : List F → Outcome F
  unfolding reduce_rounds
  reduce_futures futures = reduce_rounds (length futures) (reduce_futures2 futures)

  length-reduce_futures2 :
      (xs : List F) → length (reduce_futures2 xs) + length (reduce_futures2 xs) ≤ length xs + 1
  unfolding reduce_futures2
  length-reduce_futures2 [] = omega arith
  length-reduce_futures2 (x ∷ []) = omega arith
  length-reduce_futures2 (x ∷ y ∷ rest) = omega (arith, length-reduce_futures2 rest)

  -- A property of the vector that a round keeps holds of the one future that is left.
  module _ {κ} (P : List F → Type κ) (keep : (xs : List F) → P xs → P (reduce_futures2 xs)) where
    reduce_rounds_inv :
        (fuel : ℕ) (xs : List F)
        → length xs ≤ fuel + 1
        → 0 < length xs
        → P xs
        → (r : F) × (reduce_rounds fuel xs ≡ returns r) × P (r ∷ [])
    unfolding reduce_rounds
    reduce_rounds_inv fuel [] h n p = absurd (omega arith)
    reduce_rounds_inv fuel (x ∷ []) h n p = (x, refl, p)
    reduce_rounds_inv zero (x ∷ y ∷ rest) h n p = absurd (omega arith)
    reduce_rounds_inv (suc fuel) (x ∷ y ∷ rest) h n p =
        reduce_rounds_inv fuel (reduce_futures2 (x ∷ y ∷ rest))
          (omega (arith, length-reduce_futures2 rest)) (omega arith) (keep (x ∷ y ∷ rest) p)

    pub reduce_futures_inv :
        (xs : List F)
        → 0 < length xs
        → P xs
        → (r : F) × (reduce_futures xs ≡ returns r) × P (r ∷ [])
    unfolding reduce_futures
    reduce_futures_inv (x ∷ []) n p = reduce_rounds_inv 1 (x ∷ []) (omega arith) n p
    reduce_futures_inv (x ∷ y ∷ rest) n p =
        reduce_rounds_inv (length (x ∷ y ∷ rest)) (reduce_futures2 (x ∷ y ∷ rest))
          (omega (arith, length-reduce_futures2 rest)) (omega arith) (keep (x ∷ y ∷ rest) p)
    reduce_futures_inv [] n p = absurd (omega arith)

module _ {ℓ} {F : Type ℓ} (op : F → F → F)
    (assoc : (a b c : F) → op (op a b) c ≡ op a (op b c)) where
  reduce_futures2-foldl :
      (acc : F) (xs : List F) → foldl op acc (reduce_futures2 op xs) ≡ foldl op acc xs
  unfolding reduce_futures2
  reduce_futures2-foldl acc [] = refl
  reduce_futures2-foldl acc (x ∷ []) = refl
  reduce_futures2-foldl acc (x ∷ y ∷ rest) =
      reduce_futures2-foldl (op acc (op x y)) rest ∙ ap (λ c. foldl op c rest) (sym (assoc acc x y))

  -- The fold of a vector that is not empty is the given value.
  abbrev FoldsTo : F → List F → Type ℓ
  FoldsTo r [] = Unit
  FoldsTo r (x ∷ xs) = foldl op x xs ≡ r

  reduce_futures2-FoldsTo : (r : F) (xs : List F) → FoldsTo r xs → FoldsTo r (reduce_futures2 op xs)
  unfolding reduce_futures2
  reduce_futures2-FoldsTo r [] h = h
  reduce_futures2-FoldsTo r (x ∷ []) h = h
  reduce_futures2-FoldsTo r (x ∷ y ∷ rest) h = reduce_futures2-foldl (op x y) rest ∙ h

  reduce_futures-foldl :
      (x : F) (xs : List F) → reduce_futures op (x ∷ xs) ≡ returns (foldl op x xs)
  reduce_futures-foldl x xs =
      let (r, e, h) =
        reduce_futures_inv op (FoldsTo (foldl op x xs)) (reduce_futures2-FoldsTo (foldl op x xs))
          (x ∷ xs) (omega arith) refl in
      e ∙ ap returns h

module _ {ℓ} {A : Type ℓ} (f : A → A → Expected A)
    (assoc : (a b c : A) → and_then (f a b) (λ ab. f ab c) ≡ and_then (f b c) (f a)) where
  combine_assoc : (x y z : Expected A) → combine f (combine f x y) z ≡ combine f x (combine f y z)
  unfolding combine
  combine_assoc exception y z = refl
  combine_assoc (value a) exception z = refl
  combine_assoc (value a) (value b) (value c) = assoc a b c
  combine_assoc (value a) (value b) exception = ends (f a b)
    where
      ends : (r : Expected A) → ◌≡◌ {A = Expected A} (and_then r (λ ab. exception)) exception
      ends (value ab) = refl
      ends exception = refl

  -- For an associative operation, which may throw, `reduce_futures` of a range with at least one future
  -- ends, and leaves a future with the value of the sequential fold; if a future holds an exception or
  -- the operation throws, it holds an exception as the sequential fold does.
  pub reduce_futures-eq-foldl :
      (x : Expected A) (xs : List (Expected A))
      → reduce_futures (combine f) (x ∷ xs) ≡ returns (foldl (combine f) x xs)
  reduce_futures-eq-foldl = reduce_futures-foldl (combine f) combine_assoc
