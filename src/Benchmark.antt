-- ===== src/Benchmark.antt =====
-- The loops of include/daw/benchmark.h that time a function in nanoseconds: `bench_n_test_json`,
-- `bench_n_test_json_val` and `bench_n_test_mbs2`, with the tests `expecting` and
-- `expecting_exception`. The clock is a parameter: `now n` is its reading number `n`, and it does not go
-- back. The functions that are timed are taken to return. A duration of 64 bits does not overflow.
mod Examples
use native.Mathlib.Nat.{le_trans, mul-suc}
use function_queue.Prelude.{
  ℕ, zero, suc, ◌+◌, ◌-◌, ◌*◌, ◌<◌, ◌≤◌, ◌≡◌, ◌⊎◌, inl, inr, refl, sym, ap, ◌∙◌, Bool, true, false,
  List, [], ◌∷◌, map, arith, ltb, leb, if◌then◌else◌, range, range_from, subst, ap₂,
  map-range_from-suc,
}

-- The difference of two durations.
pub data ℤ : Type 0 where
  pos : ℕ → ℤ
  negsuc : ℕ → ℤ

abbrev pub minus : ℕ → ℕ → ℤ
minus m n = if leb n m then pos (m - n) else negsuc (n - m - 1)

-- `std::abort( )` ends the program.
pub data Ended {ℓ} (A : Type ℓ) : Type ℓ where
  completes : A → Ended A
  aborts : Ended A

abbrev with_first {ℓ} : {A : Type ℓ} → A → Ended (List A) → Ended (List A)
with_first x (completes xs) = completes (x ∷ xs)
with_first x aborts = aborts

-- The greatest `long long`.
abbrev pub longest : ℕ
longest = 9223372036854775807

module _ (now : ℕ → ℕ) where
  -- `finish - start`, for readings `k` and `k + 1`.
  abbrev pub duration : ℕ → ℕ
  duration k = now (suc k) - now k

  -- The loop that times an empty function, from reading `k` on.
  unfoldable pub fastest : ℕ → ℕ → ℕ → ℕ
  fastest zero k base_time = base_time
  fastest (suc rounds) k base_time =
      fastest rounds (suc (suc k)) (if ltb (duration k) base_time then duration k else base_time)

  -- It makes the first 2000 readings.
  unfoldable pub base_time : ℕ
  unfolding fastest
  base_time = fastest 1000 0 longest

  shorter : ℕ → ℕ → ℕ
  shorter d base = if ltb d base then d else base

  shorter_le : (d base : ℕ) → (shorter d base ≤ base) × (shorter d base ≤ d)
  unfolding shorter
  shorter_le d base = (ground arith, ground arith)

  fastest-le : (rounds k base : ℕ) → fastest rounds k base ≤ base
  unfolding fastest shorter
  fastest-le zero k base = omega arith
  fastest-le (suc rounds) k base =
      let next : fastest rounds (suc (suc k)) (shorter (duration k) base)
          ≤ shorter (duration k) base =
        fastest-le rounds (suc (suc k)) (shorter (duration k) base) in
      le_trans next (shorter_le (duration k) base).0

  -- No run of the empty function was shorter than what the loop gives.
  pub fastest-least :
      (rounds k base i : ℕ) → i < rounds → fastest rounds k base ≤ duration (k + 2 * i)
  unfolding fastest shorter
  fastest-least zero k base i l = absurd (omega arith)
  fastest-least (suc rounds) k base zero l =
      let next : fastest rounds (suc (suc k)) (shorter (duration k) base)
          ≤ shorter (duration k) base =
        fastest-le rounds (suc (suc k)) (shorter (duration k) base) in
      let here : k ≡ k + 2 * 0 = omega arith in
      subst (λ j. fastest (suc rounds) k base ≤ duration j) here
        (le_trans next (shorter_le (duration k) base).1)
  fastest-least (suc rounds) k base (suc i) l =
      let later : suc (suc k) + 2 * i ≡ k + 2 * suc i = omega arith in
      subst (λ j. fastest (suc rounds) k base ≤ duration j) later
        (fastest-least rounds (suc (suc k)) (shorter (duration k) base) i (omega arith))

  pub base_time-least : (i : ℕ) → i < 1000 → base_time ≤ duration (2 * i)
  unfolding base_time
  base_time-least i l =
      let here : 0 + 2 * i ≡ 2 * i = omega arith in
      subst (λ j. base_time ≤ duration j) here (fastest-least 1000 0 longest i l)

module _ {ℓ κ} {S : Type ℓ} {R : Type κ} (now : ℕ → ℕ) (func : S → R × S) where
  abbrev pub results_of : ℕ → S → List R
  results_of zero s = []
  results_of (suc rounds) s = let (r, s') = func s in r ∷ results_of rounds s'

  -- The timed loop without a validator, from reading `k` on.
  unfoldable pub time_runs : ℕ → ℕ → ℕ → S → List ℤ
  time_runs base zero k s = []
  time_runs base (suc rounds) k s =
      let (r, s') = func s in minus (duration now k) base ∷ time_runs base rounds (2 + k) s'

  unfoldable pub bench_n_test_json : ℕ → S → List ℤ
  bench_n_test_json runs s = time_runs (base_time now) runs 2000 s

  module _ (validator : R → Bool) where
    abbrev pub every : List R → Bool
    every [] = true
    every (r ∷ rs) = if validator r then every rs else false

    -- A timed loop with a validator: what it stores for a run that began with reading `k`, and how many
    -- readings each run makes.
    unfoldable pub time_valid_runs {μ} : {T : Type μ} → (ℕ → T) → ℕ → ℕ → ℕ → S → Ended (List T)
    time_valid_runs stored readings zero k s = completes []
    time_valid_runs stored readings (suc rounds) k s =
        let (result, s') = func s in
        let rest = time_valid_runs stored readings rounds (readings + k) s' in
        if validator result then with_first (stored k) rest else aborts

    unfoldable pub bench_n_test_json_val : ℕ → S → Ended (List ℤ)
    bench_n_test_json_val runs s =
        time_valid_runs (λ k. minus (duration now k) (base_time now)) 2 runs 2000 s

    -- The call of the validator is timed too. The base time is not used.
    unfoldable pub bench_n_test_mbs2 {μ} : {T : Type μ} → (ℕ → T) → ℕ → S → Ended (List T)
    bench_n_test_mbs2 to_seconds runs s =
        time_valid_runs (λ k. to_seconds (duration now k)) 4 runs 2000 s

    module _ {μ} {T : Type μ} (stored : ℕ → T) (readings : ℕ) where
      -- What is stored for the runs, the first of which began with reading `k`.
      abbrev pub run_times : ℕ → ℕ → List T
      run_times rounds k = map (λ i. stored (k + readings * i)) (range rounds)

      run_times-suc :
          (rounds k : ℕ) → run_times (suc rounds) k ≡ stored k ∷ run_times rounds (readings + k)
      run_times-suc rounds k = ap₂ ◌∷◌ (ap stored here) (
          map-range_from-suc (λ i. stored (k + readings * i)) 0 rounds
          ∙ ap (λ f. map f (range rounds)) (λ t i. stored (later i t)))
        where
          here : k + readings * 0 ≡ k
          here = omega arith

          later : (i : ℕ) → k + readings * suc i ≡ readings + k + readings * i
          later i = omega (arith, mul-suc readings i)

      -- Either some result was not valid, and the program was ended, or the loop has stored what it
      -- measured, in the order of the runs.
      pub time_valid_runs-results :
          (rounds k : ℕ) (s : S)
          → time_valid_runs stored readings rounds k s
            ≡ (if every (results_of rounds s) then completes (run_times rounds k) else aborts)
      unfolding time_valid_runs
      time_valid_runs-results zero k s = refl
      time_valid_runs-results (suc rounds) k s =
          ap (λ rest. if validator r then with_first (stored k) rest else aborts)
            (time_valid_runs-results rounds (readings + k) s')
          ∙ both (validator r) (every (results_of rounds s'))
        where
          r : R
          r = (func s).0

          s' : S
          s' = (func s).1

          both :
              (b c : Bool)
              → (if b
                  then with_first
                      (stored k)
                      (if c then completes (run_times rounds (readings + k)) else aborts)
                  else aborts)
                ≡ (if (if b then c else false)
                    then completes (run_times (suc rounds) k)
                    else aborts)
          both true true = ap completes (sym (run_times-suc rounds k))
          both true false = refl
          both false c = refl

    -- Either some result was not valid, and the program was ended, or each run gives its duration less
    -- the base time, in the order of the runs; and no run of the empty function was shorter than that.
    pub bench_n_test_json_val-results :
        (runs : ℕ) (s : S)
        → (bench_n_test_json_val runs s ≡ (
            if every (results_of runs s)
            then completes
                (map (λ i. minus (duration now (2000 + 2 * i)) (base_time now)) (range runs))
            else aborts))
          × ((i : ℕ) → i < 1000 → base_time now ≤ duration now (2 * i))
    unfolding bench_n_test_json_val
    bench_n_test_json_val-results runs s = (
      time_valid_runs-results (λ k. minus (duration now k) (base_time now)) 2 runs 2000 s,
      base_time-least now,
    )

    -- Without a validator the loop gives what it gives with one that accepts everything.
    pub bench_n_test_json-results :
        ((r : R) → validator r ≡ true)
        → (runs : ℕ) (s : S) → bench_n_test_json_val runs s ≡ completes (bench_n_test_json runs s)
    unfolding bench_n_test_json_val bench_n_test_json time_valid_runs time_runs
    bench_n_test_json-results valid runs s = accepted runs 2000 s
      where
        accepted :
            (rounds k : ℕ) (s : S)
            → time_valid_runs (λ k. minus (duration now k) (base_time now)) 2 rounds k s
              ≡ completes (time_runs (base_time now) rounds k s)
        accepted zero k s = refl
        accepted (suc rounds) k s =
            ap
              (λ b.
                if b then with_first (minus (duration now k) (base_time now)) (rest) else aborts)
              (valid (func s).0)
            ∙ ap (with_first (minus (duration now k) (base_time now)))
                (accepted rounds (2 + k) (func s).1)
          where
            rest : Ended (List ℤ)
            rest =
                time_valid_runs (λ k. minus (duration now k) (base_time now)) 2 rounds (2 + k)
                  (func s).1
