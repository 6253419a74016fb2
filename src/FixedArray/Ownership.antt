-- ===== src/FixedArray/Ownership.antt =====
-- Who owns which block: what the constructors and assignments do to arrays that are in order.
use function_queue.Prelude.{
  ℕ, ◌≤◌, ◌<◌, ◌≡◌, ◌≢◌, refl, sym, ap, ◌∙◌, false, List, [], ◌∷◌, ◌++◌, none, some, arith, length,
  set, drop, replicate, length-replicate, take_of_le, drop_of_le, append-nil,
}
use function_queue.FixedArray.Heap.{
  Heap, copy_n, block, block-new_self, block-new_old, block-set_self, block-set_ne, new_apart,
}
use function_queue.FixedArray.{
  FixedArray, copy_construct, move_construct, clear, destroy, copy_assign,
}

-- The array has its items in a block of its own.
pub record Owns {ℓ} {T : Type ℓ} (h : Heap T) (a : FixedArray) (b : ℕ) (items : List T)
    : Type ℓ where
  pub points : a.data_ptr ≡ some b
  pub held : block h b ≡ some items
  pub sized : length items ≡ a.size

module _ {ℓ} {T : Type ℓ} where
  -- `copy_n` of a whole block into another that has room.
  copy_n_fits :
      (h : Heap T) (b c : ℕ) (items old : List T)
      → block h b ≡ some items
      → block h c ≡ some old
      → length items ≤ length old
      → copy_n (some b) (length items) (some c) h
        ≡ some (tt, set h c (some (items ++ drop (length items) old)))
  unfolding copy_n
  copy_n_fits h b c items old eb ec le =
      ground (arith, take_of_le (length items) items (omega arith))

  copy_n_overflows :
      (h : Heap T) (b c : ℕ) (items old : List T)
      → block h b ≡ some items
      → block h c ≡ some old
      → length old < length items
      → copy_n (some b) (length items) (some c) h ≡ none
  unfolding copy_n
  copy_n_overflows h b c items old eb ec lt =
      ground (arith, take_of_le (length items) items (omega arith))

  pub fresh_contents :
      (n : ℕ) (init : T) (items : List T)
      → n ≤ length items
      → items ++ drop (length items) (replicate n init) ≡ items
  fresh_contents n init items h =
      ap (◌++◌ items)
        (drop_of_le (length items) (replicate n init) (omega (arith, length-replicate n init)))
      ∙ append-nil items

  -- A copy of an array with items has the same items in a block of its own, and the array that was
  -- copied keeps its block.
  copy_construct-Owns :
      (init : T) (h : Heap T) (a : FixedArray) (b : ℕ) (items : List T)
      → Owns h a b items
      → 0 < a.size
      → (h' : Heap T) × (a' : FixedArray) × (c : ℕ) × (copy_construct init a h ≡ some (a', h'))
        × Owns h' a' c items
        × Owns h' a b items
        × (b ≢ c)
  unfolding copy_construct
  copy_construct-Owns init h a b items o n =
      let c = length h in
      let fresh = replicate a.size init in
      let h₁ = h ++ some fresh ∷ [] in
      let kept : block h₁ b ≡ some items = block-new_old h fresh b items o.held in
      let made : block h₁ c ≡ some fresh = block-new_self h fresh in
      let apart : b ≢ c = new_apart h b items o.held in
      let room : length items ≤ length fresh =
        omega (arith, length-replicate a.size init, o.sized) in
      let copied = copy_n_fits h₁ b c items fresh kept made room in
      (
        set h₁ c (some (items ++ drop (length items) fresh)),
        record { size = a.size; data_ptr = some c },
        c,
        ground (arith, copied),
        record {
          points = refl;
          held =
              block-set_self h₁ c fresh _ made
              ∙ ap some (fresh_contents a.size init items (omega (arith, o.sized)));
          sized = o.sized;
        },
        record {
          points = o.points;
          held = block-set_ne h₁ c b _ (λ e. apart (sym e)) ∙ kept;
          sized = o.sized;
        },
        apart,
      )

  -- An array that is cleared is destroyed with a second `delete[]` of its block: undefined behaviour,
  -- for every array that owns a block.
  pub destroy-clear :
      (h : Heap T) (a : FixedArray) (b : ℕ) (items : List T)
      → Owns h a b items
      → (h' : Heap T) × (a' : FixedArray) × (clear a h ≡ some (a', h'))
        × (block h' b ≡ none)
        × (destroy a' h' ≡ none)
  unfolding destroy
  destroy-clear h a b items o =
      let freed = block-set_self h b items none o.held in
      (
        set h b none,
        record { size = 0; data_ptr = a.data_ptr },
        ground (arith, o.points, o.held),
        freed,
        ground (arith, o.points, freed),
      )

  -- Copy assignment from a larger array writes past the end of the block that it made, whatever the
  -- two arrays hold: undefined behaviour.
  pub copy_assign_overflows :
      (init : T) (h : Heap T) (a rhs : FixedArray) (b c : ℕ) (items rhs_items : List T)
      → Owns h a b items
      → Owns h rhs c rhs_items
      → a.size < rhs.size
      → copy_assign init false a rhs h ≡ none
  unfolding copy_assign
  copy_assign_overflows init h a rhs b c items rhs_items o r lt =
      let fresh = replicate a.size init in
      let h₁ = h ++ some fresh ∷ [] in
      let overflow =
        copy_n_overflows h₁ c (length h) rhs_items fresh (block-new_old h fresh c rhs_items r.held)
          (block-new_self h fresh) (omega (arith, length-replicate a.size init, r.sized)) in
      ground (arith, overflow, r.points, r.sized)

  -- From an array that is not larger it gives the array the other one's items in a new block, frees the
  -- old block, and leaves the other array as it is.
  pub copy_assign-Owns :
      (init : T) (h : Heap T) (a rhs : FixedArray) (b c : ℕ) (items rhs_items : List T)
      → Owns h a b items
      → Owns h rhs c rhs_items
      → b ≢ c
      → rhs.size ≤ a.size
      → (h' : Heap T) × (a' : FixedArray) × (d : ℕ) × (copy_assign init false a rhs h
          ≡ some (a', h'))
        × (a'.size ≡ rhs.size)
        × (block h' d ≡ some (rhs_items ++ drop rhs.size (replicate a.size init)))
        × (a'.data_ptr ≡ some d)
        × (block h' b ≡ none)
        × Owns h' rhs c rhs_items
  unfolding copy_assign
  copy_assign-Owns init h a rhs b c items rhs_items o r apart le =
      let d = length h in
      let fresh = replicate a.size init in
      let h₁ = h ++ some fresh ∷ [] in
      let made : block h₁ d ≡ some fresh = block-new_self h fresh in
      let b_d : b ≢ d = new_apart h b items o.held in
      let c_d : c ≢ d = new_apart h c rhs_items r.held in
      let room : length rhs_items ≤ length fresh =
        omega (arith, length-replicate a.size init, r.sized) in
      let after = rhs_items ++ drop (length rhs_items) fresh in
      let h₂ = set h₁ d (some after) in
      let copied =
        copy_n_fits h₁ c d rhs_items fresh (block-new_old h fresh c rhs_items r.held) made room in
      let old : block h₂ b ≡ some items =
        block-set_ne h₁ d b (some after) (λ e. b_d (sym e))
        ∙ block-new_old h fresh b items o.held in
      (
        set h₂ b none,
        record { size = rhs.size; data_ptr = some d },
        d,
        ground (arith, copied, old, o.points, r.points, r.sized),
        refl,
        block-set_ne h₂ b d none b_d
            ∙ block-set_self h₁ d fresh (some after) made
            ∙ ap (λ n. some (rhs_items ++ drop n fresh)) r.sized,
        refl,
        block-set_self h₂ b items none old,
        record {
          points = r.points;
          held =
              block-set_ne h₂ b c none apart
              ∙ block-set_ne h₁ d c (some after) (λ e. c_d (sym e))
              ∙ block-new_old h fresh c rhs_items r.held;
          sized = r.sized;
        },
      )

  -- After a move construction both arrays can be destroyed: the block is freed once, by the new one.
  destroy-move_construct :
      (h : Heap T) (a : FixedArray) (b : ℕ) (items : List T)
      → Owns h a b items
      → Owns h (move_construct a).0 b items
        × (destroy (move_construct a).1 h ≡ some (tt, h))
        × (destroy (move_construct a).0 h ≡ some (tt, set h b none))
  unfolding move_construct destroy
  destroy-move_construct h a b items o = (
    record { points = o.points; held = o.held; sized = o.sized },
    refl,
    ground (arith, o.points, o.held),
  )
