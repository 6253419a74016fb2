-- ===== src/Algorithms/ForEachIndex.antt =====
-- `parallel_for_each_index`, which `for_each_index` calls. What the function does to the memory that
-- the tasks share is a step for each index.
use mathlib.Core.List.Permᴰ
use function_queue.Prelude.{
  ℕ, zero, suc, ◌+◌, ◌-◌, ◌<◌, ◌≡◌, refl, sym, ap, ap₂, ◌∙◌, List, [], ◌∷◌, ◌++◌, Option, some,
  arith, length, foldl, foldl-append, foldl-perm, range_from, range, length-perm, length-range_from,
}
use function_queue.Ranges.{View, Tiles, Policy, Tiles-le}
use function_queue.Tasks.{IsSchedule, partition_range, wait, run_from, partition_range-in_turn}

module _ {ℓ} {S : Type ℓ} (func : ℕ → S → S) where
  -- `for( size_t n = start_pos; n < end_pos; ++n ) { func( n ); }` with `rounds` rounds to go.
  call_from : ℕ → ℕ → S → S
  call_from n zero s = s
  call_from n (suc rounds) s = call_from (suc n) rounds (func n s)

  -- The task of a part.
  for_each_index_part : View → S → S
  unfolding call_from
  for_each_index_part rng s = call_from rng.first (rng.last - rng.first) s

  -- The latch starts at the number of parts, and each task notifies it once.
  unfoldable pub parallel_for_each_index : Policy → ℕ → List ℕ → ℕ → S → Option S
  unfolding for_each_index_part partition_range wait
  parallel_for_each_index policy ts_size order size s =
      let ranges = policy.split size ts_size in
      wait (length ranges - length order) (partition_range for_each_index_part ranges order s)

  call : S → ℕ → S
  call s n = func n s

  call_from-foldl :
      (n rounds : ℕ) (s : S) → call_from n rounds s ≡ foldl call s (range_from n rounds)
  unfolding call_from call
  call_from-foldl n zero s = refl
  call_from-foldl n (suc rounds) s = call_from-foldl (suc n) rounds (func n s)

  range_from-append : (a k l : ℕ) → range_from a k ++ range_from (a + k) l ≡ range_from a (k + l)
  range_from-append a zero l =
      let e : a + 0 ≡ a = omega arith in let e' : l ≡ 0 + l = omega arith in ap₂ range_from e e'
  range_from-append a (suc k) l =
      let e : a + suc k ≡ suc a + k = omega arith in
      let e' : suc (k + l) ≡ suc k + l = omega arith in
      ap (λ b. a ∷ (range_from (suc a) k ++ range_from b l)) e
      ∙ ap (◌∷◌ a) (range_from-append (suc a) k l)
      ∙ ap (range_from a) e'

  run_from-foldl :
      (k a n : ℕ) (vs : List View) (s : S)
      → Tiles a vs n
      → run_from (λ v n. for_each_index_part v) k vs s ≡ foldl call s (range_from a (n - a))
  unfolding for_each_index_part
  run_from-foldl k a n [] s t =
      let e : 0 ≡ n - a = omega arith in ap (λ r. foldl call s (range_from a r)) e
  run_from-foldl k a n (v ∷ vs) s t =
      let at : v.last ≡ a + (v.last - v.first) = omega arith in
      let all : v.last - v.first + (n - v.last) ≡ n - a = omega (arith, Tiles-le v.last n vs t.2) in
      run_from-foldl (suc k) v.last n vs (for_each_index_part v s) t.2
      ∙ ap (λ r. foldl call r (range_from v.last (n - v.last)))
          (call_from-foldl v.first (v.last - v.first) s)
      ∙ sym (
          foldl-append call s (range_from v.first (v.last - v.first))
            (range_from v.last (n - v.last)))
      ∙ ap₂ (λ b c. foldl call s (range_from b (v.last - v.first) ++ range_from c (n - v.last)))
          (t.0) at
      ∙ ap (foldl call s) (range_from-append a (v.last - v.first) (n - v.last))
      ∙ ap (λ r. foldl call s (range_from a r)) all

  module _ (comm : (m n : ℕ) (s : S) → func n (func m s) ≡ func m (func n s)) where
    parts_comm :
        (v w : View) (s : S)
        → for_each_index_part w (for_each_index_part v s)
          ≡ for_each_index_part v (for_each_index_part w s)
    unfolding for_each_index_part call
    parts_comm v w s =
        both v w
        ∙ foldl-perm call (λ s' i j. comm i j s') (Permᴰ.append_comm (at v) (at w)) s
        ∙ sym (both w v)
      where
        at : View → List ℕ
        at u = range_from u.first (u.last - u.first)

        both :
            (t u : View)
            → for_each_index_part u (for_each_index_part t s) ≡ foldl call s (at t ++ at u)
        both t u =
            ap (for_each_index_part u) (call_from-foldl t.first (t.last - t.first) s)
            ∙ call_from-foldl u.first (u.last - u.first) (foldl call s (at t))
            ∙ sym (foldl-append call s (at t) (at u))

    -- For a function whose calls at two indices may be exchanged, `parallel_for_each_index` returns,
    -- having called it exactly once at each index of the range, as the sequential loop does, for every
    -- policy, every positive number of queues and every order in which the tasks run.
    pub parallel_for_each_index-eq-foldl :
        (policy : Policy) (ts_size : ℕ)
        → 0 < ts_size
        → (order : List ℕ) (size : ℕ) (s : S) → IsSchedule (policy.split size ts_size) order
        → parallel_for_each_index policy ts_size order size s
          ≡ some (foldl (λ t n. func n t) s (range size))
    unfolding parallel_for_each_index wait call
    parallel_for_each_index-eq-foldl policy ts_size workers order size s p =
        let ranges = policy.split size ts_size in
        let open_latch : length ranges - length order ≡ 0 =
          omega (arith, length-perm p, length-range_from 0 (length ranges)) in
        let whole : size - 0 ≡ size = omega arith in
        ap (λ c. wait c (partition_range for_each_index_part ranges order s)) open_latch
        ∙ ap some (
            partition_range-in_turn for_each_index_part parts_comm ranges order p s
            ∙ run_from-foldl 0 0 size ranges s (policy.split-Tiles size ts_size workers)
            ∙ ap (λ r. foldl call s (range_from 0 r)) whole)
