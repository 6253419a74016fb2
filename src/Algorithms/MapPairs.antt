-- ===== src/Algorithms/MapPairs.antt =====
-- `parallel_map` on two ranges of include/daw/fs/impl/algorithms_impl.h.
use function_queue.Prelude.{
  ℕ, zero, suc, ◌+◌, ◌-◌, ◌<◌, ◌≤◌, ◌≡◌, refl, sym, ap, ap₂, subst, ◌∙◌, List, [], ◌∷◌, map, Option,
  none, some, arith, length, take, drop, if◌then◌else◌, ◌==◌,
}
use function_queue.Ranges.{View, items, Policy}
use function_queue.Tasks.{IsSchedule, partition_range_by, wait}
use function_queue.Algorithms.Writes.{write_from}
use function_queue.Algorithms.Map.{MapFunction, map_part, parallel_map, parallel_map-eq-map}

module _ {ℓ κ μ} {A : Type ℓ} {B : Type κ} {C : Type μ} where
  -- The function on the items of two lists at the same places, as far as both go.
  abbrev pub zip_with : (A → B → C) → List A → List B → List C
  zip_with f [] ys = []
  zip_with f (x ∷ xs) [] = []
  zip_with f (x ∷ xs) (y ∷ ys) = f x y ∷ zip_with f xs ys

  zip_with-take :
      (f : A → B → C) (n : ℕ) (xs : List A) (ys : List B)
      → take n (zip_with f xs ys) ≡ zip_with f (take n xs) ys
  zip_with-take f zero xs ys = refl
  zip_with-take f (suc n) [] ys = refl
  zip_with-take f (suc n) (x ∷ xs) [] = refl
  zip_with-take f (suc n) (x ∷ xs) (y ∷ ys) = ap (◌∷◌ (f x y)) (zip_with-take f n xs ys)

  zip_with-nil : (f : A → B → C) (xs : List A) → zip_with f xs [] ≡ []
  zip_with-nil f [] = refl
  zip_with-nil f (x ∷ xs) = refl

  zip_with-drop :
      (f : A → B → C) (n : ℕ) (xs : List A) (ys : List B)
      → drop n (zip_with f xs ys) ≡ zip_with f (drop n xs) (drop n ys)
  zip_with-drop f zero xs ys = refl
  zip_with-drop f (suc n) [] ys = refl
  zip_with-drop f (suc n) (x ∷ xs) [] = sym (zip_with-nil f (drop n xs))
  zip_with-drop f (suc n) (x ∷ xs) (y ∷ ys) = zip_with-drop f n xs ys

  length-zip_with :
      (f : A → B → C) (xs : List A) (ys : List B)
      → length xs ≤ length ys
      → length (zip_with f xs ys) ≡ length xs
  length-zip_with f [] ys h = refl
  length-zip_with f (x ∷ xs) [] h = absurd (omega arith)
  length-zip_with f (x ∷ xs) (y ∷ ys) h = ap suc (length-zip_with f xs ys (omega arith))

module _ {ℓ κ μ} {A : Type ℓ} {B : Type κ} {C : Type μ} (f : A → B → C) where
  on_pair : A × B → C
  on_pair p = f p.0 p.1

  map-zip_with :
      (xs : List A) (ys : List B) → map on_pair (zip_with (λ x y. (x, y)) xs ys) ≡ zip_with f xs ys
  unfolding on_pair
  map-zip_with [] ys = refl
  map-zip_with (x ∷ xs) [] = refl
  map-zip_with (x ∷ xs) (y ∷ ys) = ap (◌∷◌ (f x y)) (map-zip_with xs ys)

-- `daw::algorithm::map` of the dependency on some items and on what stands from the second iterator on,
-- which is at least as long.
pub record MapTwoFunction {ℓ κ μ} (A : Type ℓ) (B : Type κ) (C : Type μ) : Type (ℓ ⊔ κ ⊔ μ) where
  pub map_two_to : (A → B → C) → List A → List B → ℕ → List C → List C
  pub map_two_to-writes :
      (f : A → B → C) (its : List A) (its2 : List B) (pos : ℕ) (out : List C)
      → map_two_to f its its2 pos out ≡ write_from out pos (zip_with f its its2)

-- The map of the items in a list, written out.
abbrev write_map {ℓ κ} : {A : Type ℓ} {B : Type κ} → MapFunction A B
write_map = record {
  map_to = λ f its pos out. write_from out pos (map f its);
  map_to-writes = λ f its pos out. refl;
}

module _ {ℓ κ μ} {A : Type ℓ} {B : Type κ} {C : Type μ} (algorithm : MapTwoFunction A B C) where
  -- The task of a part is as far behind the starts of the second range and of the output as the part is
  -- behind that of the first range.
  map_two_part : (A → B → C) → List A → List B → View → List C → List C
  map_two_part binary_op range_in1 range_in2 v out =
      let step = v.first - 0 in
      algorithm.map_two_to binary_op (items range_in1 v) (drop (0 + step) range_in2) (0 + step) out

  -- `none`: the caller waits forever.
  unfoldable pub parallel_map_two :
      Policy → ℕ → List ℕ → List A → List B → (A → B → C) → List C → Option (List C)
  unfolding map_two_part partition_range_by wait
  parallel_map_two policy ts_size order range_in1 range_in2 binary_op out =
      let (sem, out') =
        partition_range_by policy.split (map_two_part binary_op range_in1 range_in2)
          (length range_in1) ts_size order out in
      wait sem out'

  -- It maps the pairs of items.
  map_two_part-map_part :
      (f : A → B → C) (xs : List A) (ys : List B) (v : View) (out : List C)
      → map_two_part f xs ys v out
        ≡ map_part write_map (on_pair f) (zip_with (λ x y. (x, y)) xs ys) v out
  unfolding map_two_part map_part
  map_two_part-map_part f xs ys v out =
      ap (λ k. algorithm.map_two_to f (items xs v) (drop k ys) (0 + (v.first - 0)) out)
        (omega arith)
      ∙ algorithm.map_two_to-writes f (items xs v) (drop v.first ys) (0 + (v.first - 0)) out
      ∙ ap (write_from out (0 + (v.first - 0))) (sym (parts (v.last - v.first)))
    where
      parts :
          (n : ℕ)
          → map (on_pair f) (take n (drop v.first (zip_with (λ x y. (x, y)) xs ys)))
            ≡ zip_with f (take n (drop v.first xs)) (drop v.first ys)
      parts n =
          ap (λ l. map (on_pair f) (take n l)) (zip_with-drop (λ x y. (x, y)) v.first xs ys)
          ∙ ap (map (on_pair f))
              (zip_with-take (λ x y. (x, y)) n (drop v.first xs) (drop v.first ys))
          ∙ map-zip_with f (take n (drop v.first xs)) (drop v.first ys)

  -- `parallel_map` on two ranges returns with the result of the function on the two items at each
  -- place, when the first range is not empty, the second is at least as long and the output is as
  -- long, for every policy, every positive number of queues and every order in which the tasks run. On
  -- an empty first range it never returns.
  pub parallel_map_two-eq-zip_with :
      (policy : Policy) (ts_size : ℕ)
      → 0 < ts_size
      → (order : List ℕ) (xs : List A) (ys : List B) (f : A → B → C) (out : List C)
      → IsSchedule (policy.split (length xs) ts_size) order
      → length xs ≤ length ys
      → length out ≡ length xs
      → parallel_map_two policy ts_size order xs ys f out
        ≡ (if length xs == 0 then none else some (zip_with f xs ys))
  unfolding parallel_map_two parallel_map
  parallel_map_two-eq-zip_with policy ts_size workers order xs ys f out p l e =
      let pairs = zip_with (λ x y. (x, y)) xs ys in
      let n : length pairs ≡ length xs = length-zip_with (λ x y. (x, y)) xs ys l in
      ap₂
        (λ part k.
          let (sem, out') = partition_range_by policy.split part k ts_size order out in
          wait sem out')
        (λ i v s. map_two_part-map_part f xs ys v s i) (sym n)
      ∙ parallel_map-eq-map write_map policy ts_size workers order pairs (on_pair f) out
          (subst (λ k. IsSchedule (policy.split k ts_size) order) (sym n) p) (e ∙ sym n)
      ∙ ap₂ (λ k r. if k == 0 then none else some r) n (map-zip_with f xs ys)
