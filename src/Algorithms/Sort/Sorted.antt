-- ===== src/Algorithms/Sort/Sorted.antt =====
-- `parallel_sort` leaves the range sorted, and a permutation of what it was.
use mathlib.Core.List.Permᴰ
use function_queue.Prelude.{
  ℕ, ◌<◌, ◌≡◌, refl, sym, ap, subst, ◌∙◌, Bool, false, List, [], ◌∷◌, ◌++◌, map, append-nil,
  append_assoc, Permᴰ, arith, length, ltb, ==_iff, All, flatten, Bool-cases, inl, inr,
}
use function_queue.Outcome.{returns, ◌>>=◌}
use function_queue.Ranges.{View, items, Tiles, Policy, flatten-items}
use function_queue.Futures.Expected.{Expected, value, exception}
use function_queue.Futures.Reduction.{combine, reduce_futures2, reduce_futures_inv}
use function_queue.Algorithms.MinMax.{IsStrictWeakOrder}
use function_queue.Algorithms.Sort.{
  Block, merge, parallel_sort_merger, sort_fn, sorted_contents, parallel_sort,
}

pub data Refused {ℓ} : Type ℓ where

module _ {ℓ κ} {A : Type ℓ} (P : A → Type κ) where
  All-append : (xs ys : List A) → All P xs → All P ys → All P (xs ++ ys)
  All-append [] ys p q = q
  All-append (x ∷ xs) ys p q = (p.0, All-append xs ys p.1 q)

  All-perm : {xs ys : List A} → Permᴰ xs ys → All P ys → All P xs
  All-perm Permᴰ.nil h = h
  All-perm (Permᴰ.cons e p) h = (subst P (sym e) h.0, All-perm p h.1)
  All-perm (Permᴰ.swap e e') h = (subst P (sym e) h.1.0, (subst P (sym e') h.0, h.1.1))
  All-perm (Permᴰ.trans p q) h = All-perm p (All-perm q h)

pub All-imp {ℓ κ μ} :
    {A : Type ℓ} {P : A → Type κ} {Q : A → Type μ}
    → ((x : A) → P x → Q x)
    → (xs : List A) → All P xs
    → All Q xs
All-imp f [] h = tt
All-imp f (x ∷ xs) h = (f x h.0, All-imp f xs h.1)

module _ {ℓ} {A : Type ℓ} (cmp : A → A → Bool) where
  -- No item stands before one that is less.
  abbrev pub IsSorted : List A → Type ℓ
  IsSorted [] = Unit
  IsSorted (x ∷ xs) = All (λ y. cmp y x ≡ false) xs × IsSorted xs

  pub merge-perm : (xs ys : List A) → Permᴰ (merge cmp xs ys) (xs ++ ys)
  unfolding merge
  merge-perm [] ys = Permᴰ.refl ys
  merge-perm (x ∷ xs) [] =
      subst (λ l. Permᴰ (x ∷ xs) (x ∷ l)) (sym (append-nil xs)) (Permᴰ.refl (x ∷ xs))
  merge-perm (x ∷ xs) (y ∷ ys) = elim (Bool-cases (cmp y x)) [
    | inl e ↦
        rw (e, merge)
          (Permᴰ.trans (Permᴰ.cons refl (merge-perm (x ∷ xs) ys))
            (Permᴰ.symm (Permᴰ.middle y (x ∷ xs) ys)))
    | inr e ↦ rw (e, merge) (Permᴰ.cons refl (merge-perm xs (y ∷ ys)))
  ]

  pub merge-IsSorted :
      IsStrictWeakOrder cmp
      → (xs ys : List A) → IsSorted xs
      → IsSorted ys
      → IsSorted (merge cmp xs ys)
  unfolding merge
  merge-IsSorted w [] ys p q = q
  merge-IsSorted w (x ∷ xs) [] p q = p
  merge-IsSorted w (x ∷ xs) (y ∷ ys) p q = elim (Bool-cases (cmp y x)) [
    | inl e ↦
        let x_y : cmp x y ≡ false = ground (arith, w.irrefl x, w.trans x y x) in
        rw (e, merge)
          (
            All-perm (λ z. cmp z y ≡ false) (merge-perm (x ∷ xs) ys)
                (All-append (λ z. cmp z y ≡ false) (x ∷ xs) ys
                  (x_y, All-imp (λ z h. w.negative_trans z x y h x_y) xs p.0) q.0),
            merge-IsSorted w (x ∷ xs) ys p q.1,
          )
    | inr e ↦
        rw (e, merge)
          (
            All-perm (λ z. cmp z x ≡ false) (merge-perm xs (y ∷ ys))
                (All-append (λ z. cmp z x ≡ false) xs (y ∷ ys) p.0
                  (e, All-imp (λ z h. w.negative_trans z y x h e) ys q.0)),
            merge-IsSorted w xs (y ∷ ys) p.1 q,
          )
  ]

  -- The blocks follow one another from `a` on, each is sorted, and no merge has been refused.
  abbrev pub SortedBlocks : ℕ → List (Expected (Block A)) → Type ℓ
  SortedBlocks a [] = Unit
  SortedBlocks a (exception ∷ bs) = Refused
  SortedBlocks a (value b ∷ bs) =
      (b.view.first ≡ a) × IsSorted b.contents × SortedBlocks b.view.last bs

  abbrev pub all_contents : List (Expected (Block A)) → List A
  all_contents [] = []
  all_contents (exception ∷ bs) = all_contents bs
  all_contents (value b ∷ bs) = b.contents ++ all_contents bs

  unfoldable pub merged : Block A → Block A → Block A
  merged l r = record {
    view = record { first = l.view.first; last = r.view.last };
    contents = merge cmp l.contents r.contents;
  }

  pub parallel_sort_merger-contiguous :
      (l r : Block A)
      → r.view.first ≡ l.view.last
      → parallel_sort_merger cmp l r ≡ value (merged l r)
  unfolding parallel_sort_merger merged
  parallel_sort_merger-contiguous l r h =
      rw ((==_iff l.view.last r.view.first).1 (sym h), parallel_sort_merger)

  -- A round of merges keeps the blocks sorted and contiguous, and their items.
  module _ (w : IsStrictWeakOrder cmp) where
    pub round-SortedBlocks :
        (a : ℕ) (bs : List (Expected (Block A)))
        → SortedBlocks a bs
        → SortedBlocks a (reduce_futures2 (combine (parallel_sort_merger cmp)) bs)
    unfolding reduce_futures2 combine merged
    round-SortedBlocks a [] h = h
    round-SortedBlocks a (value b ∷ []) h = h
    round-SortedBlocks a (exception ∷ []) h = h
    round-SortedBlocks a (exception ∷ _ ∷ bs) h = elim h [ ]
    round-SortedBlocks a (value b ∷ exception ∷ bs) h = elim h.2 [ ]
    round-SortedBlocks a (value l ∷ value r ∷ bs) h =
        rw (parallel_sort_merger-contiguous l r h.2.0) (
          h.0,
          merge-IsSorted w l.contents r.contents h.1 h.2.1,
          round-SortedBlocks r.view.last bs h.2.2,
        )

    round-perm :
        (a : ℕ) (bs : List (Expected (Block A)))
        → SortedBlocks a bs
        → Permᴰ
            (all_contents (reduce_futures2 (combine (parallel_sort_merger cmp)) bs))
            (all_contents bs)
    unfolding reduce_futures2 combine merged
    round-perm a [] h = Permᴰ.nil
    round-perm a (value b ∷ []) h = Permᴰ.refl (b.contents ++ [])
    round-perm a (exception ∷ []) h = elim h [ ]
    round-perm a (exception ∷ _ ∷ bs) h = elim h [ ]
    round-perm a (value b ∷ exception ∷ bs) h = elim h.2 [ ]
    round-perm a (value l ∷ value r ∷ bs) h =
        rw
          (
            parallel_sort_merger-contiguous l r h.2.0,
            ← append_assoc l.contents r.contents (all_contents bs),
          )
          (Permᴰ.trans
            (Permᴰ.append_left (merge cmp l.contents r.contents) (round-perm r.view.last bs h.2.2))
            (Permᴰ.append_right (all_contents bs) (merge-perm l.contents r.contents)))

  -- What the caller's sort has to do.
  abbrev pub Sorts : (List A → List A) → Type ℓ
  Sorts srt = (l : List A) → IsSorted (srt l) × Permᴰ (srt l) l

  pub parts-SortedBlocks :
      (srt : List A → List A)
      → Sorts srt
      → (xs : List A) (a n : ℕ) (vs : List View) → Tiles a vs n
      → SortedBlocks a (map (sort_fn cmp srt xs) vs)
  unfolding sort_fn
  parts-SortedBlocks srt s xs a n [] t = tt
  parts-SortedBlocks srt s xs a n (v ∷ vs) t =
      (t.0, (s (items xs v)).0, parts-SortedBlocks srt s xs v.last n vs t.2)

  parts-perm :
      (srt : List A → List A)
      → Sorts srt
      → (xs : List A) (vs : List View)
      → Permᴰ (all_contents (map (sort_fn cmp srt xs) vs)) (flatten (map (items xs) vs))
  unfolding sort_fn
  parts-perm srt s xs [] = Permᴰ.nil
  parts-perm srt s xs (v ∷ vs) =
      Permᴰ.trans (Permᴰ.append_left (srt (items xs v)) (parts-perm srt s xs vs))
        (Permᴰ.append_right (flatten (map (items xs) vs)) (s (items xs v)).1)

  -- The one block that is left when the merges are done.
  last_block :
      (xs : List A) (r : Expected (Block A))
      → SortedBlocks 0 (r ∷ [])
      → Permᴰ (all_contents (r ∷ [])) xs
      → (ys : List A) × (sorted_contents cmp r ≡ returns ys) × IsSorted ys × Permᴰ ys xs
  unfolding sorted_contents
  last_block xs exception h p = elim h [ ]
  last_block xs (value b) h p =
      (b.contents, refl, h.1, subst (λ l. Permᴰ l xs) (append-nil b.contents) p)

  pub parts-length :
      (xs : List A) (srt : List A → List A) (n : ℕ) (vs : List View)
      → Tiles 0 vs n
      → 0 < n
      → 0 < length (map (sort_fn cmp srt xs) vs)
  parts-length xs srt n [] t h = absurd (omega arith)
  parts-length xs srt n (v ∷ vs) t h = omega arith

  -- With a sort that sorts the parts, `parallel_sort` ends with the range sorted and a permutation of
  -- what it was, and no merge is refused: for a strict weak order, every policy whose smallest range is
  -- not empty, and every positive number of queues.
  pub parallel_sort-IsSorted :
      IsStrictWeakOrder cmp
      → (policy : Policy) (ts_size : ℕ) → 0 < policy.min_range_size
      → 0 < ts_size
      → (srt : List A → List A) → Sorts srt
      → (xs : List A)
      → (ys : List A) × (parallel_sort cmp policy ts_size srt xs ≡ returns ys)
        × IsSorted ys
        × Permᴰ ys xs
  unfolding parallel_sort
  parallel_sort-IsSorted w policy ts_size some_items workers srt s xs =
      elim (Bool-cases (ltb (length xs) policy.min_range_size)) [
        | inl short ↦ (srt xs, rw (short), (s xs).0, (s xs).1)
        | inr long ↦
            let vs = policy.split (length xs) ts_size in
            let t = policy.split-Tiles (length xs) ts_size workers in
            let (r, e, kept) =
              reduce_futures_inv (combine (parallel_sort_merger cmp))
                (λ bs. SortedBlocks 0 bs × Permᴰ (all_contents bs) xs)
                (λ bs p. (round-SortedBlocks w 0 bs p.0, Permᴰ.trans (round-perm w 0 bs p.0) p.1))
                (map (sort_fn cmp srt xs) vs) (parts-length xs srt (length xs) vs t (ground arith))
                (
                  parts-SortedBlocks srt s xs 0 (length xs) vs t,
                  subst (Permᴰ (all_contents (map (sort_fn cmp srt xs) vs)))
                      (flatten-items xs 0 vs t) (parts-perm srt s xs vs),
                ) in
            let (ys, f, sorted, perm) = last_block xs r kept.0 kept.1 in
            (ys, rw long (ap (λ o. o >>= sorted_contents cmp) e ∙ f), sorted, perm)
      ]
