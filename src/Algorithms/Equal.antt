-- ===== src/Algorithms/Equal.antt =====
-- `parallel_equal`, which both overloads of `equal` call.
use native.Mathlib.Decide.{ℕ_discrete}
use function_queue.Prelude.{
  ℕ, ◌<◌, ◌≡◌, ◌≢◌, refl, sym, ap, ap₂, subst, ◌∙◌, Bool, true, false, not, ◌&&◌, List, [], ◌∷◌,
  ◌++◌, none, some, arith, length, drop, suc, drop_of_le, get_elem?, ◌==◌, if◌then◌else◌,
  get_elem?-append_length, append_assoc, length-append,
}
use function_queue.Outcome.{Outcome, returns, undefined, ◌>>=◌}
use function_queue.Ranges.{View, items, Tiles, Policy, items-append-drop, length-items}
use function_queue.Tasks.{IsSchedule, partition_range_pos, run_from, partition_range_pos-in_turn}

module _ {ℓ κ} {A : Type ℓ} {B : Type κ} (pred : A → B → Bool) where
  -- `std::equal` on two ranges with their ends.
  pub equal_ranges : List A → List B → Bool
  equal_ranges [] [] = true
  equal_ranges [] (y ∷ ys) = false
  equal_ranges (x ∷ xs) [] = false
  equal_ranges (x ∷ xs) (y ∷ ys) = pred x y && equal_ranges xs ys

  -- The task of part `pos` of the first range: `ranges2[ pos ]` is its partner, and `&=` is atomic.
  equal_part : List A → List B → List View → View → ℕ → Outcome Bool → Outcome Bool
  unfolding equal_ranges
  equal_part xs ys ranges2 v pos all_equal = elim (get_elem? ranges2 pos) [
    | none ↦ undefined
    | some w ↦ all_equal >>= λ e. returns (e && equal_ranges (items xs v) (items ys w))
  ]

  unfoldable pub parallel_equal : Policy → ℕ → List ℕ → List A → List B → Outcome Bool
  unfolding equal_part partition_range_pos
  parallel_equal policy ts_size order xs ys =
      if not (length xs == length ys)
      then returns false
      else let ranges1 = policy.split (length xs) ts_size in
        let ranges2 = policy.split (length ys) ts_size in
        partition_range_pos (equal_part xs ys ranges2) ranges1 order (returns true)

  equal_ranges-append :
      (xs xs' : List A) (ys ys' : List B)
      → length xs ≡ length ys
      → equal_ranges (xs ++ xs') (ys ++ ys') ≡ (equal_ranges xs ys && equal_ranges xs' ys')
  unfolding equal_ranges
  equal_ranges-append [] xs' [] ys' h = refl
  equal_ranges-append [] xs' (y ∷ ys) ys' h = absurd (omega arith)
  equal_ranges-append (x ∷ xs) xs' [] ys' h = absurd (omega arith)
  equal_ranges-append (x ∷ xs) xs' (y ∷ ys) ys' h =
      ground (arith, equal_ranges-append xs xs' ys ys')

  equal_ranges_lengths :
      (xs : List A) (ys : List B) → length xs ≢ length ys → equal_ranges xs ys ≡ false
  unfolding equal_ranges
  equal_ranges_lengths [] [] h = absurd (h refl)
  equal_ranges_lengths [] (y ∷ ys) h = refl
  equal_ranges_lengths (x ∷ xs) [] h = refl
  equal_ranges_lengths (x ∷ xs) (y ∷ ys) h = ground (arith, equal_ranges_lengths xs ys)

  equal_part_comm :
      (xs : List A) (ys : List B) (ranges2 : List View) (v w : View) (m n : ℕ) (s : Outcome Bool)
      → equal_part xs ys ranges2 w n (equal_part xs ys ranges2 v m s)
        ≡ equal_part xs ys ranges2 v m (equal_part xs ys ranges2 w n s)
  unfolding equal_part
  equal_part_comm xs ys ranges2 v w m n s = ground arith

  run_from-equal :
      (xs : List A) (ys : List B) (pre vs : List View) (a : ℕ) (e : Bool)
      → length xs ≡ length ys
      → Tiles a vs (length xs)
      → run_from (equal_part xs ys (pre ++ vs)) (length pre) vs (returns e)
        ≡ returns (e && equal_ranges (drop a xs) (drop a ys))
  unfolding equal_part
  run_from-equal xs ys pre [] a e h t =
      rw (drop_of_le a xs (omega arith), drop_of_le a ys (omega arith)) (ground arith)
  run_from-equal xs ys pre (v ∷ vs) a e h t =
      ap (run_from (equal_part xs ys (pre ++ v ∷ vs)) (suc (length pre)) vs)
        (one (get_elem?-append_length pre v vs))
      ∙ ap₂ (λ r k. run_from (equal_part xs ys r) k vs (returns (e && here)))
          (sym (append_assoc pre (v ∷ []) vs)) next
      ∙ run_from-equal xs ys (pre ++ v ∷ []) vs v.last (e && here) h t.2
      ∙ ap returns (
          ground (
            arith,
            equal_ranges-append (items xs v) (drop v.last xs) (items ys v) (drop v.last ys) same,
            ap₂ equal_ranges (items-append-drop xs a v vs t) (items-append-drop ys a v vs t'),
          ))
    where
      here : Bool
      here = equal_ranges (items xs v) (items ys v)

      t' : Tiles a (v ∷ vs) (length ys)
      t' = subst (Tiles a (v ∷ vs)) h t

      same : length (items xs v) ≡ length (items ys v)
      same = omega (arith, length-items xs a v vs t, length-items ys a v vs t')

      next : suc (length pre) ≡ length (pre ++ v ∷ [])
      next = omega (arith, length-append pre (v ∷ []))

      one :
          get_elem? (pre ++ v ∷ vs) (length pre) ≡ some v
          → equal_part xs ys (pre ++ v ∷ vs) v (length pre) (returns e) ≡ returns (e && here)
      one g = rw (g, equal_part)

  -- `parallel_equal` tells whether the ranges have the same length and their items satisfy the
  -- predicate pair by pair, for every policy, every positive number of queues and every order in
  -- which the tasks run. It never reads a part of the second range that is not there.
  pub parallel_equal-eq-equal_ranges :
      (policy : Policy) (ts_size : ℕ)
      → 0 < ts_size
      → (order : List ℕ) (xs : List A) (ys : List B)
      → IsSchedule (policy.split (length xs) ts_size) order
      → parallel_equal policy ts_size order xs ys ≡ returns (equal_ranges xs ys)
  unfolding parallel_equal
  parallel_equal-eq-equal_ranges policy ts_size workers order xs ys p =
      elim (ℕ_discrete (length xs) (length ys)) [
        | yes h ↦ ground (
          arith,
          ap
              (λ n.
                partition_range_pos (equal_part xs ys (policy.split n ts_size))
                  (policy.split (length xs) ts_size) order (returns true))
              (sym h),
          partition_range_pos-in_turn (equal_part xs ys (policy.split (length xs) ts_size))
              (equal_part_comm xs ys (policy.split (length xs) ts_size))
              (policy.split (length xs) ts_size) order p (returns true),
          run_from-equal xs ys [] (policy.split (length xs) ts_size) 0 true h
              (policy.split-Tiles (length xs) ts_size workers),
        )
        | no h ↦ ground (arith, equal_ranges_lengths xs ys h)
      ]
