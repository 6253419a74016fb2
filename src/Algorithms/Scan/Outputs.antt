-- ===== src/Algorithms/Scan/Outputs.antt =====
-- The second pass of `parallel_scan`, and both passes together.
use function_queue.Prelude.{
  ℕ, zero, suc, ◌+◌, ◌-◌, ◌≤◌, ◌<◌, ◌≡◌, refl, sym, ap, ap₂, ◌∙◌, inl, inr, List, [], ◌∷◌, ◌++◌,
  map, Option, none, some, arith, length, get_elem?, take, drop, foldl, foldl-append, foldl-perm,
  range_from, length-take, Permᴰ, le_or_lt,
}
use function_queue.Ranges.{View, items, Tiles, length-items, Tiles-le}
use function_queue.Tasks.{run_task, run_task_comm-of, partition_range_pos, run_from, tasks_in_turn}
use function_queue.Algorithms.Writes.{
  write_from, range_from-append, write_at, write_from-segment, write_at_comm, items-split,
  items-beyond,
}
use function_queue.Algorithms.Scan.{scan_from, partial_sum, second_pass}
use function_queue.Algorithms.Scan.Sums.{absorb, total_before, length-scan_from}

module _ {ℓ} {A : Type ℓ} (op : A → A → A) where
  scan_from-append :
      (s : A) (xs ys : List A)
      → scan_from op s (xs ++ ys) ≡ scan_from op s xs ++ scan_from op (foldl op s xs) ys
  scan_from-append s [] ys = refl
  scan_from-append s (x ∷ xs) ys = ap (◌∷◌ (op s x)) (scan_from-append (op s x) xs ys)

  pub partial_sum-absorb :
      (pre ys : List A) (s : A)
      → absorb op none pre ≡ some s
      → partial_sum op (pre ++ ys) ≡ partial_sum op pre ++ scan_from op s ys
  partial_sum-absorb [] ys s e = absurd (cc e)
  partial_sum-absorb (x ∷ xs) ys s e =
      let same : foldl op x xs ≡ s = cc e in
      ap (◌∷◌ x) (scan_from-append x xs ys)
      ∙ ap (λ t. (x ∷ scan_from op x xs) ++ scan_from op t ys) same

  pub length-partial_sum : (xs : List A) → length (partial_sum op xs) ≡ length xs
  length-partial_sum [] = refl
  length-partial_sum (x ∷ xs) = ap suc (length-scan_from op x xs)

module _ {ℓ} {A : Type ℓ} (op : A → A → A) (xs : List A) where
  abbrev pub full : List A
  full = partial_sum op xs

  -- What the task of a part writes, by the total in its entry, and where.
  abbrev outputs : View → Option A → List A → List A
  outputs v o out = elim o [
    | none ↦ out
    | some s ↦ write_from out v.first (scan_from op s (items xs v))
  ]

  abbrev places : View → Option A → List ℕ
  places v o = elim o [ none ↦ [] | some s ↦ range_from v.first (length (items xs v)) ]

  abbrev write_part : View → ℕ → List A → List A
  write_part v n out = foldl (write_at full) out (places v (total_before op xs v.first))

  outputs-at :
      (v : View) (out : List A) (o : Option A)
      → total_before op xs v.first ≡ o
      → outputs v o out ≡ foldl (write_at full) out (places v o)
  outputs-at v out none e = refl
  outputs-at v out (some s) e = elim (le_or_lt v.first (length xs)) [
    | inl le ↦
        let pre = take v.first xs in
        let post = drop (v.last - v.first) (drop v.first xs) in
        let at : v.first ≡ length (partial_sum op pre) =
          omega (arith, length-partial_sum op pre, length-take v.first xs, le) in
        let segments : full
            ≡ partial_sum op pre
              ++ (scan_from op s (items xs v) ++ scan_from op (foldl op s (items xs v)) post) =
          ap (partial_sum op) (items-split xs v)
          ∙ partial_sum-absorb op pre (items xs v ++ post) s e
          ∙ ap (◌++◌ (partial_sum op pre)) (scan_from-append op s (items xs v) post) in
        ap (λ k. write_from out k (scan_from op s (items xs v))) at
        ∙ write_from-segment full (partial_sum op pre) (scan_from op s (items xs v))
            (scan_from op (foldl op s (items xs v)) post) out segments
        ∙ ap₂ (λ k l. foldl (write_at full) out (range_from k l)) (sym at)
            (length-scan_from op s (items xs v))
    | inr gt ↦
        let nothing = items-beyond xs v gt in
        ap (λ l. write_from out v.first (scan_from op s l)) nothing
        ∙ ap (λ l. foldl (write_at full) out (range_from v.first (length l))) (sym nothing)
  ]

  abbrev pub totals : List View → List (Option A)
  totals ranges = map (λ v. total_before op xs v.first) ranges

  get_elem?-totals :
      (ranges : List View) (n : ℕ) (v : View)
      → get_elem? ranges n ≡ some v
      → get_elem? (totals ranges) n ≡ some (total_before op xs v.first)
  get_elem?-totals [] n v h = absurd (cc h)
  get_elem?-totals (w ∷ ranges) zero v h =
      let same : w ≡ v = cc h in ap (λ (u : View). some (total_before op xs u.first)) same
  get_elem?-totals (w ∷ ranges) (suc n) v h = get_elem?-totals ranges n v h

  second_pass-at :
      (ranges : List View) (out : List A) (n : ℕ)
      → run_task (second_pass op xs (totals ranges)) ranges out n ≡ run_task write_part ranges out n
  unfolding run_task second_pass
  second_pass-at ranges out n = go (get_elem? ranges n) refl
    where
      entry : View → Option (Option A) → List A
      entry v e = elim e [
        | none ↦ out
        | some none ↦ out
        | some (some sum) ↦ write_from out v.first (scan_from op sum (items xs v))
      ]

      by_entry : (v : View) (o : Option A) → entry v (some o) ≡ outputs v o out
      by_entry v none = refl
      by_entry v (some s) = refl

      go :
          (o : Option View)
          → get_elem? ranges n ≡ o
          → (elim o [ none ↦ out | some v ↦ second_pass op xs (totals ranges) v n out ])
            ≡ (elim o [ none ↦ out | some v ↦ write_part v n out ])
      go none e = refl
      go (some v) e =
          ap (entry v) (get_elem?-totals ranges n v e)
          ∙ by_entry v (total_before op xs v.first)
          ∙ outputs-at v out (total_before op xs v.first) refl

  total_there : (i : ℕ) → 0 < i → i ≤ length xs → (s : A) × (total_before op xs i ≡ some s)
  total_there i p l = by_list xs i p l
    where
      by_list :
          (l : List A) (i : ℕ)
          → 0 < i
          → i ≤ length l
          → (s : A) × (absorb op none (take i l) ≡ some s)
      by_list l zero p h = absurd (omega arith)
      by_list [] (suc i) p h = absurd (omega arith)
      by_list (x ∷ l) (suc i) p h = (foldl op x (take i l), refl)

  -- The tasks of the later parts, in turn, write everything from the first of them on.
  later_outputs :
      (k a : ℕ) (vs : List View) (out : List A)
      → 0 < a
      → Tiles a vs (length xs)
      → run_from write_part k vs out ≡ foldl (write_at full) out (range_from a (length xs - a))
  later_outputs k a [] out p t =
      let e : 0 ≡ length xs - a = omega arith in
      ap (λ n. foldl (write_at full) out (range_from a n)) e
  later_outputs k a (v ∷ vs) out p t =
      let long = length-items xs a v vs t in
      let le = Tiles-le v.last (length xs) vs t.2 in
      let inside : v.first ≤ length xs = omega (arith, le, t.1) in
      let behind : 0 < v.first = omega (arith, p, t.0) in
      let (s, there) = total_there v.first behind inside in
      let all : length (items xs v) + (length xs - v.last) ≡ length xs - a =
        omega (arith, long, le, t.0) in
      let next : 0 < v.last = omega (arith, t.1) in
      later_outputs (suc k) v.last vs (write_part v k out) next t.2
      ∙ ap (λ o. foldl w (foldl w out (places v o)) (range_from v.last (length xs - v.last))) there
      ∙ sym (
          foldl-append w out (range_from v.first (length (items xs v)))
            (range_from v.last (length xs - v.last)))
      ∙ ap₂
          (λ i j.
            foldl w out (range_from i (length (items xs v)) ++ range_from j (length xs - v.last)))
          t.0 (omega (arith, long, t.0))
      ∙ ap (foldl w out) (range_from-append a (length (items xs v)) (length xs - v.last))
      ∙ ap (λ n. foldl w out (range_from a n)) all
    where
      w : List A → ℕ → List A
      w = write_at full

  pub second_pass-outputs :
      (v : View) (vs : List View) (order : List ℕ) (out : List A)
      → Tiles 0 (v ∷ vs) (length xs)
      → Permᴰ order (range_from 1 (length (v ∷ vs) - 1))
      → partition_range_pos (second_pass op xs (totals (v ∷ vs))) (v ∷ vs) order out
        ≡ foldl (write_at full) out (range_from v.last (length xs - v.last))
  unfolding partition_range_pos
  second_pass-outputs v vs order out t p =
      let ranges = v ∷ vs in
      let next : 0 < v.last = omega (arith, t.1) in
      ap (λ f. foldl f out order) (λ i s n. second_pass-at ranges s n i)
      ∙ foldl-perm (run_task write_part ranges)
          (run_task_comm-of write_part
            (λ u w m n ne s.
              write_at_comm full (places u (total_before op xs u.first))
                (places w (total_before op xs w.first)) s)
            ranges)
          p out
      ∙ ap (λ k. foldl (run_task write_part ranges) out (range_from 1 k)) (count vs)
      ∙ tasks_in_turn write_part (v ∷ []) vs out
      ∙ later_outputs 1 v.last vs out next t.2
    where
      count : (vs : List View) → suc (length vs) - 1 ≡ length vs
      count vs = omega arith
