-- ===== src/Scheduler/Cycle.antt =====
-- The loops over queues visit each index once, and the fuel of the loop over the others is enough.
use native.Mathlib.Nat.{mod-eq_of_lt, mod_self}
use function_queue.Prelude.{
  ℕ, zero, suc, ◌+◌, ◌-◌, ◌%◌, ◌≤◌, ◌<◌, ◌≡◌, ◌≢◌, false, refl, ap, ◌∙◌, List, [], ◌∷◌, ◌++◌,
  Option, none, some, arith, range_from, range, if◌then◌else◌, ◌==◌,
}
use function_queue.Outcome.{Outcome, returns, throws, undefined, ◌>>=◌}
use function_queue.QueueLoops.{for_others, for_range}

-- The indices from `id + 1` on, and then those before `id`.
abbrev pub others : ℕ → ℕ → List ℕ
others id n = range_from (id + 1) (n - (id + 1)) ++ range id

module _ {ℓ κ} {S : Type κ} {R : Type ℓ} (body : ℕ → S → Outcome (Option R × S)) where
  -- The body for one index, and `next` if it does not return.
  abbrev pub step : ℕ → (S → Outcome (Option R × S)) → S → Outcome (Option R × S)
  step m next s = body m s >>= λ (r, s'). elim r [ none ↦ next s' | some x ↦ returns (some x, s') ]

  abbrev pub for_indices : List ℕ → S → Outcome (Option R × S)
  for_indices [] s = returns (none, s)
  for_indices (m ∷ ms) s = step m (for_indices ms) s

  -- The indices in two loops, the second one if the first does not return.
  abbrev pub afterwards :
      (S → Outcome (Option R × S)) → Outcome (Option R × S) → Outcome (Option R × S)
  afterwards next o = o >>= λ (r, s'). elim r [ none ↦ next s' | some x ↦ returns (some x, s') ]

  afterwards_assoc :
      (f g : S → Outcome (Option R × S)) (o : Outcome (Option R × S))
      → afterwards (λ s. afterwards g (f s)) o ≡ afterwards g (afterwards f o)
  afterwards_assoc f g (returns (none, s)) = refl
  afterwards_assoc f g (returns (some x, s)) = refl
  afterwards_assoc f g throws = refl
  afterwards_assoc f g undefined = refl

  pub for_indices-append :
      (ms ns : List ℕ) (s : S)
      → for_indices (ms ++ ns) s ≡ afterwards (for_indices ns) (for_indices ms s)
  for_indices-append [] ns s = refl
  for_indices-append (m ∷ ms) ns s =
      ap (λ (f : S → Outcome (Option R × S)). step m f s) (λ i s'. for_indices-append ms ns s' i)
      ∙ afterwards_assoc (for_indices ms) (for_indices ns) (body m s)

  pub for_range-indices :
      (m rounds : ℕ) (s : S) → for_range body m rounds s ≡ for_indices (range_from m rounds) s
  unfolding for_range
  for_range-indices m zero s = refl
  for_range-indices m (suc rounds) s =
      ap (λ (f : S → Outcome (Option R × S)). step m f s)
        (λ i s'. for_range-indices (suc m) rounds s' i)

  -- One round, when the loop goes on as a loop over indices does.
  round :
      (fuel m id n : ℕ) (ms : List ℕ)
      → m ≢ id
      → ((s : S) → for_others body fuel ((m + 1) % n) id n s ≡ for_indices ms s)
      → (s : S) → for_others body (suc fuel) m id n s ≡ for_indices (m ∷ ms) s
  unfolding for_others
  round fuel m id n ms h rest s =
      let off : (m == id) ≡ false = ground (arith, h) in
      ap (λ b. if b then returns (none, s) else step m (for_others body fuel ((m + 1) % n) id n) s)
        off
      ∙ ap (λ (f : S → Outcome (Option R × S)). step m f s) (λ i s'. rest s' i)

  for_others-before :
      (fuel m k id n : ℕ)
      → id ≡ m + k
      → id < n
      → k ≤ fuel
      → (s : S) → for_others body fuel m id n s ≡ for_indices (range_from m k) s
  unfolding for_others
  for_others-before zero m zero id n e h f s = ground (arith, e)
  for_others-before (suc fuel) m zero id n e h f s = ground (arith, e)
  for_others-before zero m (suc k) id n e h f s = absurd (omega arith)
  for_others-before (suc fuel) m (suc k) id n e h f s =
      round fuel m id n (range_from (suc m) k) (omega arith)
        (λ s'.
          ap (λ j. for_others body fuel j id n s') (mod-eq_of_lt (omega arith) ∙ omega arith)
          ∙ for_others-before fuel (suc m) k id n (omega arith) h (omega arith) s')
        s

  for_others-behind :
      (fuel m k id n : ℕ)
      → n ≡ m + suc k
      → id < m
      → suc k + id ≤ fuel
      → (s : S) → for_others body fuel m id n s ≡ for_indices (range_from m (suc k) ++ range id) s
  for_others-behind zero m k id n e h f s = absurd (omega arith)
  for_others-behind (suc fuel) m zero id n e h f s =
      round fuel m id n (range id) (omega arith)
        (λ s'.
          ap (λ j. for_others body fuel j id n s') (ap (λ j. j % n) (omega arith) ∙ mod_self n)
          ∙ for_others-before fuel 0 id id n (omega arith) (omega arith) (omega arith) s')
        s
  for_others-behind (suc fuel) m (suc k) id n e h f s =
      round fuel m id n (range_from (suc m) (suc k) ++ range id) (omega arith)
        (λ s'.
          ap (λ j. for_others body fuel j id n s') (mod-eq_of_lt (omega arith) ∙ omega arith)
          ∙ for_others-behind fuel (suc m) k id n (omega arith) (omega arith) (omega arith) s')
        s

  -- With `n` rounds as fuel, the loop that starts behind `id` visits each other index once, in cyclic
  -- order, and ends.
  pub for_others-indices :
      (id n : ℕ)
      → id < n
      → (s : S) → for_others body n ((id + 1) % n) id n s ≡ for_indices (others id n) s
  for_others-indices id n h s = go (n - (id + 1)) refl
    where
      go :
          (k : ℕ)
          → n - (id + 1) ≡ k
          → for_others body n ((id + 1) % n) id n s
            ≡ for_indices (range_from (id + 1) k ++ range id) s
      go zero e =
          ap (λ j. for_others body n j id n s) (ap (λ j. j % n) (omega arith) ∙ mod_self n)
          ∙ for_others-before n 0 id id n (omega arith) h (omega arith) s
      go (suc k) e =
          ap (λ j. for_others body n j id n s) (mod-eq_of_lt (omega arith))
          ∙ for_others-behind n (id + 1) k id n (omega arith) (omega arith) (omega arith) s
