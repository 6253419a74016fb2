-- ===== src/FixedArray/Items.antt =====
-- The accessors of `fixed_array` of include/daw/daw_fixed_array.h: items are read and written through
-- the pointer, without a check.
use function_queue.Prelude.{
  ℕ, zero, suc, ◌-◌, ◌<◌, ◌≡◌, refl, sym, ap, subst, ◌∙◌, false, List, [], ◌∷◌, ◌++◌, Option, none,
  some, arith, length, get_elem?, set, drop, replicate, ◌==◌, if◌then◌else◌, length-replicate,
  append_assoc, get_elem?-append_length, length-append, get_elem?-there, length-set,
}
use function_queue.FixedArray.Heap.{
  Heap, Pointer, M, ◌>>=◌, pure, block, new, write_n, block-new_self, block-set_self,
}
use function_queue.FixedArray.{FixedArray, construct, construct_from}
use function_queue.FixedArray.Ownership.{Owns, fresh_contents}

-- An iterator is the pointer with an offset.
abbrev pub begin : FixedArray → Pointer × ℕ
begin a = (a.data_ptr, 0)

abbrev pub end : FixedArray → Pointer × ℕ
end a = (a.data_ptr, a.size)

module _ {ℓ} {T : Type ℓ} where
  -- An item that is read, if it is there.
  abbrev pub item_read : Heap T → Option T → Option (T × Heap T)
  item_read h none = none
  item_read h (some x) = some (x, h)

  -- `*( p + pos )`, read and written.
  unfoldable pub load : Pointer → ℕ → M T T
  load none pos h = none
  load (some b) pos h = elim (block h b) [
    | none ↦ none
    | some items ↦ item_read h (get_elem? items pos)
  ]

  unfoldable pub store : Pointer → ℕ → T → M T (Unit {0})
  store none pos v h = none
  store (some b) pos v h = elim (block h b) [
    | none ↦ none
    | some items ↦ elim (get_elem? items pos) [
      | none ↦ none
      | some x ↦ some (tt, set h b (some (set items pos v)))
    ]
  ]

  -- `operator[]`
  unfoldable pub at : FixedArray → ℕ → M T T
  unfolding load
  at a pos = load a.data_ptr pos

  unfoldable pub front : FixedArray → M T T
  unfolding load
  front a = load a.data_ptr 0

  -- `m_data + m_size - 1` points in front of the items when there are none.
  unfoldable pub back : FixedArray → M T T
  unfolding load
  back a = if a.size == 0 then (λ h. none) else load a.data_ptr (a.size - 1)

  -- What a caller reads between two iterators that are `n` items apart.
  unfoldable pub read_items : Pointer × ℕ → ℕ → M T (List T)
  unfolding load
  read_items it zero = pure []
  read_items it (suc n) = do x ← load it.0 it.1; xs ← read_items (it.0, suc it.1) n; pure (x ∷ xs)

  unfoldable pub read_all : FixedArray → M T (List T)
  unfolding read_items
  read_all a = read_items (begin a) ((end a).1 - (begin a).1)

  load-held :
      (h : Heap T) (b pos : ℕ) (items : List T) (x : T)
      → block h b ≡ some items
      → get_elem? items pos ≡ some x
      → load (some b) pos h ≡ some (x, h)
  unfolding load
  load-held h b pos items x e g = ground (arith, e, g)

  read_items-held :
      (h : Heap T) (b : ℕ) (before items : List T)
      → block h b ≡ some (before ++ items)
      → read_items (some b, length before) (length items) h ≡ some (items, h)
  unfolding read_items
  read_items-held h b before [] e = refl
  read_items-held h b before (x ∷ xs) e =
      let first =
        load-held h b (length before) (before ++ x ∷ xs) x e
          (get_elem?-append_length before x xs) in
      let rest =
        read_items-held h b (before ++ x ∷ []) xs
          (e ∙ ap some (sym (append_assoc before (x ∷ []) xs))) in
      let next : length (before ++ x ∷ []) ≡ suc (length before) =
        omega (arith, length-append before (x ∷ [])) in
      let rest' : read_items (some b, suc (length before)) (length xs) h ≡ some (xs, h) =
        subst (λ k. read_items (some b, k) (length xs) h ≡ some (xs, h)) next rest in
      ground (arith, first, rest')

  -- An item that is there is read, and there is no item behind the end.
  pub at-Owns :
      (h : Heap T) (a : FixedArray) (b pos : ℕ) (items : List T)
      → Owns h a b items
      → at a pos h ≡ item_read h (get_elem? items pos)
  unfolding load at
  at-Owns h a b pos items o = ground (arith, o.points, o.held)

  front-Owns :
      (h : Heap T) (a : FixedArray) (b : ℕ) (x : T) (xs : List T)
      → Owns h a b (x ∷ xs)
      → front a h ≡ some (x, h)
  unfolding load at front
  front-Owns h a b x xs o = at-Owns h a b 0 (x ∷ xs) o

  back-Owns :
      (h : Heap T) (a : FixedArray) (b : ℕ) (xs : List T) (x : T)
      → Owns h a b (xs ++ x ∷ [])
      → back a h ≡ some (x, h)
  unfolding load back
  back-Owns h a b xs x o =
      let some_items : (a.size == 0) ≡ false = ground (arith, o.sized, length-append xs (x ∷ [])) in
      let last : a.size - 1 ≡ length xs = omega (arith, o.sized, length-append xs (x ∷ [])) in
      ap (λ t. (if t then (λ h'. none) else load a.data_ptr (a.size - 1)) h) some_items
      ∙ ap (λ k. load a.data_ptr k h) last
      ∙ ap (λ p. load p (length xs) h) o.points
      ∙ load-held h b (length xs) (xs ++ x ∷ []) x o.held (get_elem?-append_length xs x [])

  read_all-Owns :
      (h : Heap T) (a : FixedArray) (b : ℕ) (items : List T)
      → Owns h a b items
      → read_all a h ≡ some (items, h)
  unfolding read_all read_items
  read_all-Owns h a b items o =
      let count : a.size - 0 ≡ length items = omega (arith, o.sized) in
      ap (λ n. read_items (a.data_ptr, 0) n h) count
      ∙ ap (λ p. read_items (p, 0) (length items) h) o.points
      ∙ read_items-held h b [] items o.held

  store-Owns :
      (h : Heap T) (a : FixedArray) (b pos : ℕ) (v : T) (items : List T)
      → Owns h a b items
      → pos < a.size
      → (h' : Heap T) × (store a.data_ptr pos v h ≡ some (tt, h')) × Owns h' a b (set items pos v)
  unfolding store
  store-Owns h a b pos v items o l =
      let (x, there) = get_elem?-there items pos (omega (arith, o.sized, l)) in
      (
        set h b (some (set items pos v)),
        ground (arith, o.points, o.held, there),
        record {
          points = o.points;
          held = block-set_self h b items (some (set items pos v)) o.held;
          sized = length-set items pos v ∙ o.sized;
        },
      )

  construct_from-Owns :
      (init : T) (items : List T) (h : Heap T)
      → (h' : Heap T) × (a : FixedArray) × (construct_from init items h ≡ some (a, h'))
        × Owns h' a (length h) items
  unfolding construct_from construct new write_n
  construct_from-Owns init items h =
      let fresh = replicate (length items) init in
      let made : block (h ++ some fresh ∷ []) (length h) ≡ some fresh = block-new_self h fresh in
      let size = length-replicate (length items) init in
      (
        set (h ++ some fresh ∷ []) (length h) (some (items ++ drop (length items) fresh)),
        record { size = length items; data_ptr = some (length h) },
        ground (arith, made, size),
        record {
          points = refl;
          held =
              block-set_self (h ++ some fresh ∷ []) (length h) fresh _ made
              ∙ ap some (fresh_contents (length items) init items (omega arith));
          sized = refl;
        },
      )

  -- The items that an array is constructed from are what is read between its iterators. Once an item has
  -- been written through `operator[]`, the array has that item in its place and the others unchanged,
  -- and `operator[]` reads each of them.
  pub construct_from-read_all :
      (init : T) (items : List T) (h : Heap T) (pos : ℕ) (v : T)
      → pos < length items
      → (a : FixedArray) × (h₁ : Heap T) × (h₂ : Heap T) × (construct_from init items h
          ≡ some (a, h₁))
        × (read_all a h₁ ≡ some (items, h₁))
        × (store a.data_ptr pos v h₁ ≡ some (tt, h₂))
        × (read_all a h₂ ≡ some (set items pos v, h₂))
        × ((i : ℕ) → at a i h₂ ≡ item_read h₂ (get_elem? (set items pos v) i))
  construct_from-read_all init items h pos v l =
      let (h₁, a, made, o) = construct_from-Owns init items h in
      let (h₂, stored, o₂) = store-Owns h₁ a (length h) pos v items o (omega (arith, l, o.sized)) in
      (
        a,
        h₁,
        h₂,
        made,
        read_all-Owns h₁ a (length h) items o,
        stored,
        read_all-Owns h₂ a (length h) (set items pos v) o₂,
        λ i. at-Owns h₂ a (length h) i (set items pos v) o₂,
      )
