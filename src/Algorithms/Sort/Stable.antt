-- ===== src/Algorithms/Sort/Stable.antt =====
-- `stable_sort`, which gives `std::stable_sort` to `parallel_sort`: items that are equivalent stay in
-- their order.
use function_queue.Prelude.{
  ℕ, ◌<◌, ◌≡◌, refl, sym, ap, ap₂, subst, ◌∙◌, Bool, true, false, not, ◌&&◌, List, [], ◌∷◌, ◌++◌,
  map, append-nil, append_assoc, arith, length, ltb, All, flatten, Bool-cases, inl, inr,
  if◌then◌else◌,
}
use function_queue.Outcome.{returns, ◌>>=◌}
use function_queue.Ranges.{View, items, Policy, flatten-items}
use function_queue.Futures.Expected.{Expected, value, exception}
use function_queue.Futures.Reduction.{combine, reduce_futures2, reduce_futures_inv}
use function_queue.Algorithms.MinMax.{IsStrictWeakOrder}
use function_queue.Algorithms.Sort.{
  Block, merge, parallel_sort_merger, sort_fn, sorted_contents, parallel_sort,
}
use function_queue.Algorithms.Sort.Sorted.{
  IsSorted, Sorts, SortedBlocks, all_contents, merged, parallel_sort_merger-contiguous,
  round-SortedBlocks, parts-SortedBlocks, parts-length, All-imp,
}

module _ {ℓ} {A : Type ℓ} (p : A → Bool) where
  abbrev pub select : List A → List A
  select [] = []
  select (x ∷ xs) = if p x then x ∷ select xs else select xs

  pub select-append : (xs ys : List A) → select (xs ++ ys) ≡ select xs ++ select ys
  select-append [] ys = refl
  select-append (x ∷ xs) ys = elim (Bool-cases (p x)) [
    | inl e ↦ rw (e) (ap (◌∷◌ x) (select-append xs ys))
    | inr e ↦ rw (e) (select-append xs ys)
  ]

  select-none : (xs : List A) → All (λ x. p x ≡ false) xs → select xs ≡ []
  select-none [] h = refl
  select-none (x ∷ xs) h = rw (h.0) (select-none xs h.1)

module _ {ℓ} {A : Type ℓ} (cmp : A → A → Bool) where
  -- Neither of the two goes before the other.
  abbrev pub equivalent : A → A → Bool
  equivalent a x = not (cmp a x) && not (cmp x a)

  -- What stays in its order: the items that are equivalent to one.
  abbrev pub KeepsOrder : List A → List A → Type ℓ
  KeepsOrder ys xs = (a : A) → select (equivalent a) ys ≡ select (equivalent a) xs

  -- What `std::stable_sort` does.
  abbrev pub StablySorts : (List A → List A) → Type ℓ
  StablySorts srt = Sorts cmp srt × ((l : List A) → KeepsOrder (srt l) l)

  module _ (w : IsStrictWeakOrder cmp) where
    -- An item that is less than `x` is equivalent to nothing that `x` may stand before.
    not_equivalent :
        (a x y z : A)
        → cmp y x ≡ true
        → cmp z x ≡ false
        → equivalent a y ≡ true
        → equivalent a z ≡ false
    not_equivalent a x y z l h e =
        ground (arith, w.negative_trans y a z, w.negative_trans y z x, e, l, h)

    pub merge-select :
        (xs ys : List A)
        → IsSorted cmp xs
        → (a : A)
        → select (equivalent a) (merge cmp xs ys)
          ≡ select (equivalent a) xs ++ select (equivalent a) ys
    unfolding merge
    merge-select [] ys s a = refl
    merge-select (x ∷ xs) [] s a = sym (append-nil (select (equivalent a) (x ∷ xs)))
    merge-select (x ∷ xs) (y ∷ ys) s a = elim (Bool-cases (cmp y x)) [
      | inl e ↦
          rw (e, merge)
            (elim (Bool-cases (equivalent a y)) [
              | inl f ↦
                  let none_left : select (equivalent a) (x ∷ xs) ≡ [] =
                    select-none (equivalent a) (x ∷ xs) (
                      not_equivalent a x y x e (w.irrefl x) f,
                      All-imp (λ z h. not_equivalent a x y z e h f) xs s.0,
                    ) in
                  rw (f) (
                    ap (◌∷◌ y) (
                      merge-select (x ∷ xs) ys s a
                      ∙ ap (λ l. l ++ select (equivalent a) ys) none_left)
                    ∙ ap (λ l. l ++ (y ∷ select (equivalent a) ys)) (sym none_left))
              | inr f ↦ rw (f) (merge-select (x ∷ xs) ys s a)
            ])
      | inr e ↦
          rw (e, merge)
            (select-append (equivalent a) (x ∷ []) (merge cmp xs (y ∷ ys))
              ∙ ap (◌++◌ (select (equivalent a) (x ∷ []))) (merge-select xs (y ∷ ys) s.1 a)
              ∙ sym (
                  append_assoc (select (equivalent a) (x ∷ [])) (select (equivalent a) xs)
                    (select (equivalent a) (y ∷ ys)))
              ∙ ap (λ l. l ++ select (equivalent a) (y ∷ ys))
                  (sym (select-append (equivalent a) (x ∷ []) xs)))
    ]

    -- A round of merges keeps the order.
    round-select :
        (a : ℕ) (bs : List (Expected (Block A)))
        → SortedBlocks cmp a bs
        → KeepsOrder
            (all_contents cmp (reduce_futures2 (combine (parallel_sort_merger cmp)) bs))
            (all_contents cmp bs)
    unfolding reduce_futures2 combine merged
    round-select a [] h x = refl
    round-select a (value b ∷ []) h x = refl
    round-select a (exception ∷ []) h x = elim h [ ]
    round-select a (exception ∷ _ ∷ bs) h x = elim h [ ]
    round-select a (value b ∷ exception ∷ bs) h x = elim h.2 [ ]
    round-select a (value l ∷ value r ∷ bs) h x =
        let p = equivalent x in
        let rest = all_contents cmp (reduce_futures2 (combine (parallel_sort_merger cmp)) bs) in
        rw (parallel_sort_merger-contiguous cmp l r h.2.0) (
          select-append p (merge cmp l.contents r.contents) rest
          ∙ ap₂ ◌++◌ (merge-select l.contents r.contents h.1 x)
              (round-select r.view.last bs h.2.2 x)
          ∙ append_assoc (select p l.contents) (select p r.contents)
              (select p (all_contents cmp bs))
          ∙ ap (◌++◌ (select p l.contents)) (sym (select-append p r.contents (all_contents cmp bs)))
          ∙ sym (select-append p l.contents (r.contents ++ all_contents cmp bs)))

  parts-select :
      (srt : List A → List A)
      → StablySorts srt
      → (xs : List A) (vs : List View)
      → KeepsOrder (all_contents cmp (map (sort_fn cmp srt xs) vs)) (flatten (map (items xs) vs))
  unfolding sort_fn
  parts-select srt s xs [] a = refl
  parts-select srt s xs (v ∷ vs) a =
      let p = equivalent a in
      select-append p (srt (items xs v)) (all_contents cmp (map (sort_fn cmp srt xs) vs))
      ∙ ap₂ ◌++◌ (s.1 (items xs v) a) (parts-select srt s xs vs a)
      ∙ sym (select-append p (items xs v) (flatten (map (items xs) vs)))

  last_block :
      (xs : List A) (r : Expected (Block A))
      → SortedBlocks cmp 0 (r ∷ [])
      → KeepsOrder (all_contents cmp (r ∷ [])) xs
      → (ys : List A) × (sorted_contents cmp r ≡ returns ys) × IsSorted cmp ys × KeepsOrder ys xs
  unfolding sorted_contents
  last_block xs exception h p = elim h [ ]
  last_block xs (value b) h p =
      (b.contents, refl, h.1, subst (λ l. KeepsOrder l xs) (append-nil b.contents) p)

  -- With a stable sort for the parts, `parallel_sort` ends with the range sorted, and items that are
  -- equivalent stand in the order that they had: for a strict weak order, every policy whose smallest
  -- range is not empty, and every positive number of queues.
  pub parallel_sort-KeepsOrder :
      IsStrictWeakOrder cmp
      → (policy : Policy) (ts_size : ℕ) → 0 < policy.min_range_size
      → 0 < ts_size
      → (srt : List A → List A) → StablySorts srt
      → (xs : List A)
      → (ys : List A) × (parallel_sort cmp policy ts_size srt xs ≡ returns ys)
        × IsSorted cmp ys
        × KeepsOrder ys xs
  unfolding parallel_sort
  parallel_sort-KeepsOrder w policy ts_size some_items workers srt s xs =
      elim (Bool-cases (ltb (length xs) policy.min_range_size)) [
        | inl short ↦ (srt xs, rw (short), (s.0 xs).0, s.1 xs)
        | inr long ↦
            let vs = policy.split (length xs) ts_size in
            let t = policy.split-Tiles (length xs) ts_size workers in
            let (r, e, kept) =
              reduce_futures_inv (combine (parallel_sort_merger cmp))
                (λ bs. SortedBlocks cmp 0 bs × KeepsOrder (all_contents cmp bs) xs)
                (λ bs p.
                  (round-SortedBlocks cmp w 0 bs p.0, λ a. round-select w 0 bs p.0 a ∙ p.1 a))
                (map (sort_fn cmp srt xs) vs)
                (parts-length cmp xs srt (length xs) vs t (ground arith))
                (
                  parts-SortedBlocks cmp srt s.0 xs 0 (length xs) vs t,
                  subst (KeepsOrder (all_contents cmp (map (sort_fn cmp srt xs) vs)))
                      (flatten-items xs 0 vs t) (parts-select srt s xs vs),
                ) in
            let (ys, f, sorted, order) = last_block xs r kept.0 kept.1 in
            (ys, rw long (ap (λ o. o >>= sorted_contents cmp) e ∙ f), sorted, order)
      ]
