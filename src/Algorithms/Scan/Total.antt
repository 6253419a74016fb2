-- ===== src/Algorithms/Scan/Total.antt =====
-- What `parallel_scan` leaves in the output range.
use function_queue.Prelude.{
  ℕ, ◌+◌, ◌-◌, ◌<◌, ◌≡◌, refl, sym, ap, ◌∙◌, List, [], ◌∷◌, ◌++◌, Option, none, some, arith, length,
  get_elem?, set, replicate, take, drop, foldl, foldl-append, range_from, Permᴰ, if◌then◌else◌,
  ◌==◌, if_congr, ==_iff,
}
use function_queue.Outcome.{returns, throws, undefined}
use function_queue.Ranges.{
  View, items, Tiles, Policy, items-cons, items-append-drop, length-items, Tiles-le,
}
use function_queue.Tasks.{IsSchedule, partition_range_pos}
use function_queue.Algorithms.Writes.{
  write_from, range_from-append, write_at, write_from-segment, write_all,
}
use function_queue.Algorithms.Scan.{scan_from, partial_sum, first_pass, second_pass, parallel_scan}
use function_queue.Algorithms.Scan.Sums.{absorb, first_pass-totals}
use function_queue.Algorithms.Scan.Outputs.{
  partial_sum-absorb, length-partial_sum, second_pass-outputs,
}

-- No parts, no tasks.
no_parts {ℓ κ} :
    {V : Type ℓ} {S : Type κ} (func : V → ℕ → S → S) (order : List ℕ) (s : S)
    → partition_range_pos func [] order s ≡ s
unfolding partition_range_pos
no_parts func [] s = refl
no_parts func (n ∷ order) s = no_parts func order s

module _ {ℓ} {A : Type ℓ} (op : A → A → A) (assoc : (a b c : A) → op (op a b) c ≡ op a (op b c))
    (comm : (a b : A) → op a b ≡ op b a) where
  -- Both passes over the parts.
  abbrev passes : List A → List A → List View → List ℕ → List ℕ → List A
  passes xs out ranges order1 order2 =
      let (out', p1_results) =
        partition_range_pos (λ v n s. first_pass op (items xs v) n s) ranges order1
          (out, replicate (length ranges) none) in
      partition_range_pos (second_pass op xs p1_results) ranges order2 out'

  first_outputs :
      (xs out : List A) (v : View) (vs : List View)
      → Tiles 0 (v ∷ vs) (length xs)
      → write_from out 0 (partial_sum op (items xs v))
        ≡ foldl (write_at (partial_sum op xs)) out (range_from 0 v.last)
  first_outputs xs out v vs t =
      let (x, r, its) = items-cons xs 0 v vs t in
      let total : absorb op none (items xs v) ≡ some (foldl op x r) = ap (absorb op none) its in
      let long : length (partial_sum op (items xs v)) ≡ v.last =
        omega (arith, length-partial_sum op (items xs v), length-items xs 0 v vs t, t.0) in
      write_from-segment (partial_sum op xs) [] (partial_sum op (items xs v))
        (scan_from op (foldl op x r) (drop v.last xs)) out
        (ap (partial_sum op) (sym (items-append-drop xs 0 v vs t))
          ∙ partial_sum-absorb op (items xs v) (drop v.last xs) (foldl op x r) total)
      ∙ ap (λ n. foldl (write_at (partial_sum op xs)) out (range_from 0 n)) long

  passes-partial_sum :
      (xs out : List A) (ranges : List View) (order1 order2 : List ℕ)
      → Tiles 0 ranges (length xs)
      → length out ≡ length xs
      → IsSchedule ranges order1
      → Permᴰ order2 (range_from 1 (length ranges - 1))
      → passes xs out ranges order1 order2 ≡ partial_sum op xs
  passes-partial_sum (x ∷ xs) out [] order1 order2 t e p q = absurd (omega arith)
  passes-partial_sum [] (y ∷ out) [] order1 order2 t e p q = absurd (omega arith)
  passes-partial_sum [] [] [] order1 order2 t e p q =
      ap
        (λ (s : List A × List (Option A)).
          partition_range_pos (second_pass op [] s.1) [] order2 s.0)
        (no_parts (λ v n s. first_pass op (items [] v) n s) order1 ([], []))
      ∙ no_parts (second_pass op [] []) order2 []
  passes-partial_sum xs out (v ∷ vs) order1 order2 t e p q =
      let full = partial_sum op xs in
      let ranges = v ∷ vs in
      let le = Tiles-le v.last (length xs) vs t.2 in
      let sum : v.last + (length xs - v.last) ≡ length full =
        omega (arith, le, length-partial_sum op xs) in
      ap
        (λ (s : List A × List (Option A)).
          partition_range_pos (second_pass op xs s.1) ranges order2 s.0)
        (first_pass-totals op assoc comm xs out v vs order1 t e p)
      ∙ second_pass-outputs op xs v vs order2 (write_from out 0 (partial_sum op (items xs v))) t q
      ∙ ap (λ o. foldl (write_at full) o (range_from v.last (length xs - v.last)))
          (first_outputs xs out v vs t)
      ∙ sym (
          foldl-append (write_at full) out (range_from 0 v.last)
            (range_from v.last (length xs - v.last)))
      ∙ ap
          (λ k.
            foldl (write_at full) out (range_from 0 v.last ++ range_from k (length xs - v.last)))
          (from_start v.last)
      ∙ ap (foldl (write_at full) out) (range_from-append 0 v.last (length xs - v.last))
      ∙ ap (λ n. foldl (write_at full) out (range_from 0 n)) sum
      ∙ write_all full out (omega (arith, e, length-partial_sum op xs))
    where
      from_start : (n : ℕ) → n ≡ 0 + n
      from_start n = omega arith

  -- For an associative and commutative operation, `parallel_scan` throws when the two ranges differ in
  -- length, writes no more than the first output of a range of two items, and otherwise leaves the
  -- running results in the output range, for every policy, every positive number of queues and all
  -- orders in which the tasks of the two passes run.
  pub parallel_scan-eq-partial_sum :
      (policy : Policy) (ts_size : ℕ)
      → 0 < ts_size
      → (order1 order2 : List ℕ) (xs out : List A)
      → IsSchedule (policy.split (length xs) ts_size) order1
      → Permᴰ order2 (range_from 1 (length (policy.split (length xs) ts_size) - 1))
      → parallel_scan op policy ts_size order1 order2 xs out ≡ (
          if length xs == length out
          then (if length xs == 2
              then returns (take 1 xs ++ drop 1 out)
              else returns (partial_sum op xs))
          else throws)
  unfolding parallel_scan
  parallel_scan-eq-partial_sum policy ts_size workers order1 order2 xs out p q =
      if_congr (length xs == length out)
        (λ same.
          let e = (==_iff (length xs) (length out)).0 same in
          if_congr (length xs == 2) (λ two. front xs out e ((==_iff (length xs) 2).0 two))
            (λ _.
              ap (λ o. returns o)
                (passes-partial_sum xs out (policy.split (length xs) ts_size) order1 order2
                  (policy.split-Tiles (length xs) ts_size workers) (sym e) p q)))
        (λ _. refl)
    where
      front :
          (xs out : List A)
          → length xs ≡ length out
          → length xs ≡ 2
          → (elim (get_elem? xs 0) [ none ↦ undefined | some x ↦ returns (set out 0 x) ])
            ≡ returns (take 1 xs ++ drop 1 out)
      front [] out e two = absurd (omega arith)
      front (x ∷ xs) [] e two = absurd (omega arith)
      front (x ∷ xs) (y ∷ out) e two = refl
