-- ===== src/Algorithms/Map.antt =====
-- `parallel_map` on one range, and `transform`, which calls it with an output range of its own.
use function_queue.Prelude.{
  ℕ, suc, ◌+◌, ◌-◌, ◌<◌, ◌≡◌, refl, sym, ap, ap₂, ◌∙◌, List, [], ◌∷◌, ◌++◌, map, Option, none, some,
  arith, length, take, drop, length-take, length-map, foldl, foldl-append, range_from,
  if◌then◌else◌, ◌==◌, inl, inr, le_or_lt, map-append,
}
use function_queue.Ranges.{View, items, Tiles, Policy, Tiles-le, length-items}
use function_queue.Tasks.{
  IsSchedule, partition_range_by, partition_range_by-open, wait, run_from, partition_range-in_turn,
}
use function_queue.Algorithms.Writes.{
  write_from, range_from-append, write_at, write_from-segment, write_at_comm, write_all,
  items-split, items-beyond,
}

-- `daw::algorithm::map` of the dependency: the results of a function on some items, written through an
-- output iterator from a position on.
pub record MapFunction {ℓ κ} (A : Type ℓ) (B : Type κ) : Type (ℓ ⊔ κ) where
  pub map_to : (A → B) → List A → ℕ → List B → List B
  pub map_to-writes :
      (f : A → B) (its : List A) (pos : ℕ) (out : List B)
      → map_to f its pos out ≡ write_from out pos (map f its)

module _ {ℓ κ} {A : Type ℓ} {B : Type κ} (algorithm : MapFunction A B) where
  -- The task of a part writes as far behind the start of the output as the part is behind that of the
  -- input.
  unfoldable pub map_part : (A → B) → List A → View → List B → List B
  map_part unary_op range_in v out =
      let step = v.first - 0 in algorithm.map_to unary_op (items range_in v) (0 + step) out

  -- `none`: the caller waits forever.
  unfoldable pub parallel_map : Policy → ℕ → List ℕ → List A → (A → B) → List B → Option (List B)
  unfolding map_part partition_range_by wait
  parallel_map policy ts_size order range_in unary_op out =
      let (sem, out') =
        partition_range_by policy.split (map_part unary_op range_in) (length range_in) ts_size order
          out in
      wait sem out'

  -- `transform` on `[first, last)` of a range, with an output range of its own.
  unfoldable pub transform :
      Policy → ℕ → List ℕ → List A → View → (A → B) → List B → Option (List B)
  unfolding parallel_map
  transform policy ts_size order xs range unary_op out =
      parallel_map policy ts_size order (items xs range) unary_op out

  -- What the task of a part writes, position by position.
  map_part-at :
      (f : A → B) (xs : List A) (v : View) (out : List B)
      → map_part f xs v out
        ≡ foldl (write_at (map f xs)) out (range_from v.first (length (items xs v)))
  unfolding map_part
  map_part-at f xs v out = elim (le_or_lt v.first (length xs)) [
    | inl le ↦
        let pre = take v.first xs in
        let at : v.first ≡ length (map f pre) =
          omega (arith, length-map f pre, length-take v.first xs) in
        algorithm.map_to-writes f (items xs v) (0 + (v.first - 0)) out
        ∙ ap (λ k. write_from out k (map f (items xs v))) (omega (arith, at))
        ∙ write_from-segment (map f xs) (map f pre) (map f (items xs v))
            (map f (drop (v.last - v.first) (drop v.first xs))) out (segments pre)
        ∙ ap₂ (λ k l. foldl (write_at (map f xs)) out (range_from k l)) (sym at)
            (length-map f (items xs v))
    | inr gt ↦
        algorithm.map_to-writes f (items xs v) (0 + (v.first - 0)) out
        ∙ ap (λ l. write_from out (0 + (v.first - 0)) (map f l)) (items-beyond xs v gt)
        ∙ ap (λ l. foldl (write_at (map f xs)) out (range_from v.first (length l)))
            (sym (items-beyond xs v gt))
  ]
    where
      segments :
          (pre : List A)
          → map f xs
            ≡ map f (take v.first xs)
              ++ (map f (items xs v) ++ map f (drop (v.last - v.first) (drop v.first xs)))
      segments pre =
          ap (map f) (items-split xs v)
          ∙ map-append f (take v.first xs) (items xs v ++ drop (v.last - v.first) (drop v.first xs))
          ∙ ap (◌++◌ (map f (take v.first xs)))
              (map-append f (items xs v) (drop (v.last - v.first) (drop v.first xs)))

  for_parts :
      (f : A → B) (xs : List A) (k a : ℕ) (vs : List View) (out : List B)
      → Tiles a vs (length xs)
      → run_from (λ v n. map_part f xs v) k vs out
        ≡ foldl (write_at (map f xs)) out (range_from a (length xs - a))
  for_parts f xs k a [] out t =
      let e : 0 ≡ length xs - a = omega arith in
      ap (λ n. foldl (write_at (map f xs)) out (range_from a n)) e
  for_parts f xs k a (v ∷ vs) out t =
      let long = length-items xs a v vs t in
      let all : length (items xs v) + (length xs - v.last) ≡ length xs - a =
        omega (arith, long, Tiles-le v.last (length xs) vs t.2) in
      for_parts f xs (suc k) v.last vs (map_part f xs v out) t.2
      ∙ ap (λ o. foldl w o (range_from v.last (length xs - v.last))) (map_part-at f xs v out)
      ∙ sym (
          foldl-append w out (range_from v.first (length (items xs v)))
            (range_from v.last (length xs - v.last)))
      ∙ ap₂
          (λ i j.
            foldl w out (range_from i (length (items xs v)) ++ range_from j (length xs - v.last)))
          t.0 (omega (arith, long))
      ∙ ap (foldl w out) (range_from-append a (length (items xs v)) (length xs - v.last))
      ∙ ap (λ n. foldl w out (range_from a n)) all
    where
      w : List B → ℕ → List B
      w = write_at (map f xs)

  -- `parallel_map` on a range that is not empty returns with the result of the function on each item
  -- in the output range, when that is as long, for every policy, every positive number of queues and
  -- every order in which the tasks run. On an empty range it never returns.
  pub parallel_map-eq-map :
      (policy : Policy) (ts_size : ℕ)
      → 0 < ts_size
      → (order : List ℕ) (xs : List A) (f : A → B) (out : List B)
      → IsSchedule (policy.split (length xs) ts_size) order
      → length out ≡ length xs
      → parallel_map policy ts_size order xs f out
        ≡ (if length xs == 0 then none else some (map f xs))
  unfolding parallel_map partition_range_by wait
  parallel_map-eq-map policy ts_size workers order [] f out p e = refl
  parallel_map-eq-map policy ts_size workers order (x ∷ l) f out p e =
      let xs = x ∷ l in
      let ranges = policy.split (length xs) ts_size in
      ap (λ r. wait r.0 r.1)
        (partition_range_by-open policy.split (map_part f xs) (length xs) ts_size order out p
          (omega arith))
      ∙ ap some (
          partition_range-in_turn (map_part f xs) (comm xs) ranges order p out
          ∙ for_parts f xs 0 0 ranges out (policy.split-Tiles (length xs) ts_size workers)
          ∙ ap (λ n. foldl (write_at (map f xs)) out (range_from 0 n)) (same_length xs)
          ∙ write_all (map f xs) out (omega (arith, length-map f xs, e)))
      ∙ ground arith
    where
      same_length : (xs : List A) → length xs - 0 ≡ length (map f xs)
      same_length xs = omega (arith, length-map f xs)

      both :
          (xs : List A) (v w : View) (s : List B)
          → map_part f xs w (map_part f xs v s)
            ≡ foldl
                (write_at (map f xs))
                (foldl (write_at (map f xs)) s (range_from v.first (length (items xs v))))
                (range_from w.first (length (items xs w)))
      both xs v w s =
          ap (map_part f xs w) (map_part-at f xs v s)
          ∙ map_part-at f xs w
              (foldl (write_at (map f xs)) s (range_from v.first (length (items xs v))))

      comm :
          (xs : List A) (v w : View) (s : List B)
          → map_part f xs w (map_part f xs v s) ≡ map_part f xs v (map_part f xs w s)
      comm xs v w s =
          both xs v w s
          ∙ write_at_comm (map f xs) (range_from v.first (length (items xs v)))
              (range_from w.first (length (items xs w))) s
          ∙ sym (both xs w v s)
