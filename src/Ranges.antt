-- ===== src/Ranges.antt =====
-- Views of a random-access range, and how a range is cut into parts: `split_fixed_t` of
-- include/daw/fs/impl/algorithms_impl.h, and the contract of `daw::algorithm::partition_range`
-- (a dependency), which `split_range_t` calls.
use native.Mathlib.Nat.{div-add-mod}
use function_queue.Prelude.{
  ℕ, zero, suc, ◌+◌, ◌-◌, ◌*◌, ◌/◌, ◌≤◌, ◌<◌, ◌≡◌, refl, sym, ap, ◌∙◌, List, [], ◌∷◌, ◌++◌, map,
  arith, length, take, drop, ltb, if◌then◌else◌, flatten, take-append-drop, drop-sub, drop_of_le,
  length-take, length-drop,
}

-- A view holds two iterators, here the offsets from the start of the range it was cut from.
pub record View : Type 0 where
  pub first : ℕ
  pub last : ℕ

module _ {ℓ} {A : Type ℓ} where
  -- The items that a view shows of the store behind its iterators.
  abbrev pub items : List A → View → List A
  items xs v = take (v.last - v.first) (drop v.first xs)

-- The views follow one another from `a` up to `n`, with none empty.
abbrev pub Tiles : ℕ → List View → ℕ → Type 0
Tiles a [] n = a ≡ n
Tiles a (v ∷ vs) n = (v.first ≡ a) × (v.first < v.last) × Tiles v.last vs n

-- What a partition policy does: size and `max_parts` to views. The law is what the callers rely on.
pub record Policy : Type 0 where
  pub min_range_size : ℕ
  pub split : ℕ → ℕ → List View
  pub split-Tiles : (size max_parts : ℕ) → 0 < max_parts → Tiles 0 (split size max_parts) size

-- The `for` over `num_parts`, and the push of what is left over.
fixed_parts : ℕ → ℕ → ℕ → ℕ → List View
fixed_parts part_size left_over pos zero =
    if ltb 0 left_over then record { first = pos; last = pos + left_over } ∷ [] else []
fixed_parts part_size left_over pos (suc n) =
    record { first = pos; last = pos + part_size }
    ∷ fixed_parts part_size left_over (pos + part_size) n

unfoldable pub split_fixed : ℕ → ℕ → ℕ → List View
unfolding fixed_parts
split_fixed block_size sz max_parts =
    let num_parts = sz / block_size in
    fixed_parts block_size (sz - block_size * num_parts) 0 num_parts

fixed_parts-Tiles : (b l pos n : ℕ) → 0 < b → Tiles pos (fixed_parts b l pos n) (pos + (n * b + l))
unfolding fixed_parts
fixed_parts-Tiles b l pos zero h = ground arith
fixed_parts-Tiles b l pos (suc n) h =
    (refl, omega arith, rw (regroup) (fixed_parts-Tiles b l (pos + b) n h))
  where
    regroup : pos + (suc n * b + l) ≡ pos + b + (n * b + l)
    regroup = omega arith

-- `split_fixed_t` cuts every range into consecutive parts, none empty, that cover it, whatever
-- `max_parts` is, for a block size above 0.
pub split_fixed-Tiles :
    (block_size sz max_parts : ℕ)
    → 0 < block_size
    → Tiles 0 (split_fixed block_size sz max_parts) sz
unfolding split_fixed
split_fixed-Tiles b sz k h = rw (total) at (fixed_parts-Tiles b (sz - b * (sz / b)) 0 (sz / b) h)
  where
    total : 0 + (sz / b * b + (sz - b * (sz / b))) ≡ sz
    total = grind (arith, div-add-mod sz b)

-- The policy of `parallel_sort`.
abbrev pub split_fixed_policy : (block_size : ℕ) → 0 < block_size → Policy
split_fixed_policy b h = record {
  min_range_size = b;
  split = split_fixed b;
  split-Tiles = λ sz k _. split_fixed-Tiles b sz k h;
}

pub Tiles-le : (a n : ℕ) (vs : List View) → Tiles a vs n → a ≤ n
Tiles-le a n [] t = omega arith
Tiles-le a n (v ∷ vs) t = omega (arith, Tiles-le v.last n vs t.2)

module _ {ℓ} {A : Type ℓ} where
  -- What is left from a part on is the part and what follows it.
  pub items-append-drop :
      (xs : List A) (a : ℕ) (v : View) (vs : List View)
      → Tiles a (v ∷ vs) (length xs)
      → items xs v ++ drop v.last xs ≡ drop a xs
  items-append-drop xs a v vs t =
      ap (◌++◌ (items xs v)) (sym (drop-sub v.first v.last xs (omega arith)))
      ∙ take-append-drop (v.last - v.first) (drop v.first xs)
      ∙ ap (λ k. drop k xs) t.0

  pub length-items :
      (xs : List A) (a : ℕ) (v : View) (vs : List View)
      → Tiles a (v ∷ vs) (length xs)
      → v.first + length (items xs v) ≡ v.last
  length-items xs a v vs t = omega (
    arith,
    length-take (v.last - v.first) (drop v.first xs),
    length-drop v.first xs,
    Tiles-le v.last (length xs) vs t.2,
  )

  -- The parts of a tiling hold the items of the range, in order.
  pub flatten-items :
      (xs : List A) (a : ℕ) (vs : List View)
      → Tiles a vs (length xs)
      → flatten (map (items xs) vs) ≡ drop a xs
  flatten-items xs a [] t = sym (drop_of_le a xs (omega arith))
  flatten-items xs a (v ∷ vs) t =
      ap (◌++◌ (items xs v)) (flatten-items xs v.last vs t.2) ∙ items-append-drop xs a v vs t

  -- A part that is not empty has a first item.
  pub items-cons :
      (xs : List A) (a : ℕ) (v : View) (vs : List View)
      → Tiles a (v ∷ vs) (length xs)
      → (x : A) × (ys : List A) × (items xs v ≡ x ∷ ys)
  items-cons xs a v vs t = uncons (items xs v) (omega (arith, length-items xs a v vs t))
    where
      uncons : (l : List A) → 0 < length l → (x : A) × (ys : List A) × (l ≡ x ∷ ys)
      uncons [] h = absurd (omega arith)
      uncons (x ∷ ys) h = (x, ys, refl)
