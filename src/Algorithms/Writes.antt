-- ===== src/Algorithms/Writes.antt =====
-- Results that tasks write through an output iterator. When every task writes what one list has at the
-- position, the order of the writes does not matter.
use mathlib.Core.List.Permᴰ
use function_queue.Ranges.{View, items}
use function_queue.Prelude.{
  take, take-append-drop, length-take, length-drop, ℕ, zero, suc, ◌+◌, ◌-◌, ◌≤◌, ◌<◌, ◌≡◌, refl,
  sym, ap, ap₂, ◌∙◌, List, [], ◌∷◌, ◌++◌, Option, none, some, arith, length, get_elem?, set, modify,
  modify_comm, set-modify, drop, append_assoc, append-nil, length-append, get_elem?-append_length,
  modify-append_length, foldl, foldl-append, foldl-perm, range_from, drop_of_le,
}

module _ {ℓ} {A : Type ℓ} where
  -- The values one after the other, from the position on.
  abbrev pub write_from : List A → ℕ → List A → List A
  write_from out pos [] = out
  write_from out pos (v ∷ vs) = write_from (set out pos v) (suc pos) vs

  -- A list written over the front of a longer one.
  pub write_from-append :
      (pre vs ys : List A)
      → length vs ≤ length ys
      → write_from (pre ++ ys) (length pre) vs ≡ pre ++ (vs ++ drop (length vs) ys)
  write_from-append pre [] ys l = refl
  write_from-append pre (v ∷ vs) [] l = absurd (omega arith)
  write_from-append pre (v ∷ vs) (y ∷ ys) l =
      ap (λ o. write_from o (suc (length pre)) vs)
        (set-modify (pre ++ y ∷ ys) (length pre) v ∙ modify-append_length pre y ys (λ _. v))
      ∙ ap₂ (λ o k. write_from o k vs) (sym (append_assoc pre (v ∷ []) ys))
          (omega (arith, length-append pre (v ∷ [])))
      ∙ write_from-append (pre ++ v ∷ []) vs ys (omega arith)
      ∙ append_assoc pre (v ∷ []) (vs ++ drop (length vs) ys)

pub range_from-append : (a i j : ℕ) → range_from a i ++ range_from (a + i) j ≡ range_from a (i + j)
range_from-append a zero j =
    let e : a + 0 ≡ a = omega arith in let e' : j ≡ 0 + j = omega arith in ap₂ range_from e e'
range_from-append a (suc i) j =
    let e : a + suc i ≡ suc a + i = omega arith in
    let e' : suc (i + j) ≡ suc i + j = omega arith in
    ap (λ k. a ∷ (range_from (suc a) i ++ range_from k j)) e
    ∙ ap (◌∷◌ a) (range_from-append (suc a) i j)
    ∙ ap (range_from a) e'

module _ {ℓ} {A : Type ℓ} (full : List A) where
  -- What `full` has at the position.
  abbrev pub pick : ℕ → A → A
  pick i old = elim (get_elem? full i) [ none ↦ old | some x ↦ x ]

  abbrev pub write_at : List A → ℕ → List A
  write_at out i = modify out i (pick i)

  -- Writing a segment of `full` to its place.
  pub write_from-segment :
      (pre vs post out : List A)
      → full ≡ pre ++ (vs ++ post)
      → write_from out (length pre) vs ≡ foldl write_at out (range_from (length pre) (length vs))
  write_from-segment pre [] post out e = refl
  write_from-segment pre (v ∷ vs) post out e =
      ap (λ o. write_from o (suc (length pre)) vs)
        (set-modify out (length pre) v ∙ ap (modify out (length pre)) (λ i old. sym (here old) i))
      ∙ ap (λ k. write_from (write_at out (length pre)) k vs) next
      ∙ write_from-segment (pre ++ v ∷ []) vs post (write_at out (length pre))
          (e ∙ sym (append_assoc pre (v ∷ []) (vs ++ post)))
      ∙ ap (λ k. foldl write_at (write_at out (length pre)) (range_from k (length vs))) (sym next)
    where
      next : suc (length pre) ≡ length (pre ++ v ∷ [])
      next = omega (arith, length-append pre (v ∷ []))

      here : (old : A) → pick (length pre) old ≡ v
      here old =
          ap (λ (o : Option A). elim o [ none ↦ old | some x ↦ x ])
            (ap (λ l. get_elem? l (length pre)) e ∙ get_elem?-append_length pre v (vs ++ post))

  pub write_at_comm :
      (is js : List ℕ) (out : List A)
      → foldl write_at (foldl write_at out is) js ≡ foldl write_at (foldl write_at out js) is
  write_at_comm is js out =
      sym (foldl-append write_at out is js)
      ∙ foldl-perm write_at (λ s i j. modify_comm s pick i j) (Permᴰ.append_comm is js) out
      ∙ foldl-append write_at out js is

  -- All of it.
  pub write_all :
      (out : List A)
      → length out ≡ length full
      → foldl write_at out (range_from 0 (length full)) ≡ full
  write_all out e =
      sym (write_from-segment [] full [] out (sym (append-nil full)))
      ∙ write_from-append [] full out (omega arith)
      ∙ ap (◌++◌ full) (drop_of_le (length full) out (omega arith))
      ∙ append-nil full

module _ {ℓ} {A : Type ℓ} where
  -- What stands before a part, the part, and what stands behind it.
  pub items-split :
      (xs : List A) (v : View)
      → xs ≡ take v.first xs ++ (items xs v ++ drop (v.last - v.first) (drop v.first xs))
  items-split xs v =
      sym (take-append-drop v.first xs)
      ∙ ap (◌++◌ (take v.first xs)) (sym (take-append-drop (v.last - v.first) (drop v.first xs)))

  pub items-beyond : (xs : List A) (v : View) → length xs < v.first → items xs v ≡ []
  items-beyond xs v h =
      nothing (items xs v)
        (omega (arith, length-take (v.last - v.first) (drop v.first xs), length-drop v.first xs))
    where
      nothing : (l : List A) → length l ≡ 0 → l ≡ []
      nothing [] e = refl
      nothing (x ∷ l) e = absurd (omega arith)
