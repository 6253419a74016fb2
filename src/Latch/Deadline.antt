-- ===== src/Latch/Deadline.antt =====
-- The waits of `latch` with a predicate and with a deadline, over `atomic_wait_pred` of
-- include/daw/atomic_wait_predicate.h: one thread, and what it sees each time that it looks. The
-- dependency's `atomic_wait` is taken to return as soon as the count has another value.
use function_queue.Prelude.{
  ℕ, ◌≡◌, ◌≢◌, refl, Bool, true, false, List, [], ◌∷◌, arith, foldl, ltb, if◌then◌else◌, ◌==◌, ◌||◌,
  ◌&&◌, not, All,
}

-- What stands in memory, on the clock and behind the predicate when the thread looks.
pub record Seen : Type 0 where
  pub count : ℕ
  pub now : ℕ
  pub pred : Bool

-- Where the thread is: at the test of the loop of the wait, with the count that it has loaded at the
-- other half of that test, at the load in `atomic_wait_pred`, at its predicate, in `atomic_wait`, or
-- behind the loop.
pub data Phase : Type 0 where
  testing : Phase
  asking : Phase
  reloading : Phase
  checking : ℕ → Phase
  sleeping : ℕ → Phase
  returned : Phase

module _ (leaves : Seen → Bool) (ends : ℕ → Seen → Bool) where
  -- `atomic_wait_pred` within the loop of a wait. The loop is left when the count is zero or `leaves`
  -- holds; `ends` is the predicate that `atomic_wait_pred` is given.
  abbrev pub wait_pred_step : Phase → Seen → Phase
  wait_pred_step testing s = if s.count == 0 then returned else asking
  wait_pred_step asking s = if leaves s then returned else reloading
  wait_pred_step reloading s = if s.count == 0 then testing else checking s.count
  wait_pred_step (checking current) s = if ends current s then testing else sleeping current
  wait_pred_step (sleeping current) s = if s.count == current then sleeping current else reloading
  wait_pred_step returned s = returned

  -- A thread that has returned has seen the count at zero, or the reason to leave.
  wait_pred-returned :
      (start : Phase) (seen : List Seen)
      → start ≢ returned
      → All (λ s. (s.count ≢ 0) × (leaves s ≡ false)) seen
      → foldl wait_pred_step start seen ≢ returned
  wait_pred-returned start [] n h = n
  wait_pred-returned start (s ∷ seen) n h =
      wait_pred-returned (wait_pred_step start s) seen (stays start s n h.0) h.1
    where
      stays :
          (p : Phase) (s : Seen)
          → p ≢ returned
          → (s.count ≢ 0) × (leaves s ≡ false)
          → wait_pred_step p s ≢ returned
      stays testing s n h = ground (arith, h.0)
      stays asking s n h = ground (arith, h.1)
      stays reloading s n h = ground (arith, h.0)
      stays (checking current) s n h = ground arith
      stays (sleeping current) s n h = ground arith
      stays returned s n h = n

-- `wait_until`
unfoldable pub wait_until : ℕ → List Seen → Phase
wait_until timeout_time seen =
    foldl
      (wait_pred_step (λ s. not (ltb s.now timeout_time)) (λ p s. p == 0 || ltb s.now timeout_time))
      testing seen

-- `wait` with a predicate
unfoldable pub wait_with_pred : List Seen → Phase
wait_with_pred seen =
    foldl (wait_pred_step (λ s. s.pred) (λ value s. value == 0 && s.pred)) testing seen

-- A thread that has returned from `wait_until` has seen the latch open or the deadline passed.
wait_until-returned :
    (timeout_time : ℕ) (seen : List Seen)
    → All (λ s. (s.count ≢ 0) × (ltb s.now timeout_time ≡ true)) seen
    → wait_until timeout_time seen ≢ returned
unfolding wait_until
wait_until-returned timeout_time seen h =
    wait_pred-returned (λ s. not (ltb s.now timeout_time)) (λ p s. p == 0 || ltb s.now timeout_time)
      testing seen (λ e. cc e) (later seen h)
  where
    later :
        (l : List Seen)
        → All (λ s. (s.count ≢ 0) × (ltb s.now timeout_time ≡ true)) l
        → All (λ s. (s.count ≢ 0) × (not (ltb s.now timeout_time) ≡ false)) l
    later [] h = tt
    later (s ∷ l) h = ((h.0.0, ground (arith, h.0.1)), later l h.1)

above_zero : (count : ℕ) → count ≢ 0 → (count == 0) ≡ false
above_zero count n = ground (arith, n)

abbrev inside : Phase → Bool
inside testing = false
inside asking = false
inside reloading = true
inside (checking current) = not (current == 0)
inside (sleeping current) = not (current == 0)
inside returned = false

module _ (leaves : Seen → Bool) (ends : ℕ → Seen → Bool) where
  -- `atomic_wait_pred` goes on as long as the count is not zero and its predicate does not hold.
  steps-inside :
      (p : Phase) (seen : List Seen)
      → inside p ≡ true
      → All (λ s. (s.count ≢ 0) × ((c : ℕ) → c ≢ 0 → ends c s ≡ false)) seen
      → inside (foldl (wait_pred_step leaves ends) p seen) ≡ true
  steps-inside p [] i h = i
  steps-inside p (s ∷ seen) i h = steps-inside (wait_pred_step leaves ends p s) seen (stays p i) h.1
    where
      stays : (p : Phase) → inside p ≡ true → inside (wait_pred_step leaves ends p s) ≡ true
      stays testing i = absurd (cc i)
      stays asking i = absurd (cc i)
      stays reloading i = ground (arith, h.0.0)
      stays (checking current) i =
          let c : current ≢ 0 = ground (arith, i) in ground (arith, i, h.0.1 current c)
      stays (sleeping current) i = ground (arith, i)
      stays returned i = absurd (cc i)

-- A thread in `wait` that has found its predicate false once is still inside `atomic_wait_pred` as long
-- as the count is above zero, whatever the predicate says by then.
wait_with_pred-inside :
    (first second : Seen) (seen : List Seen)
    → first.count ≢ 0
    → second.pred ≡ false
    → All (λ s. s.count ≢ 0) seen
    → inside (wait_with_pred (first ∷ second ∷ seen)) ≡ true
unfolding wait_with_pred
wait_with_pred-inside first second seen n p h =
    let leaves = λ (s : Seen). s.pred in
    let ends = λ (value : ℕ) (s : Seen). value == 0 && s.pred in
    rw ((above_zero first.count n), p) (steps-inside leaves ends reloading seen refl (never seen h))
  where
    never :
        (l : List Seen)
        → All (λ s. s.count ≢ 0) l
        → All (λ s. (s.count ≢ 0) × ((c : ℕ) → c ≢ 0 → (c == 0 && s.pred) ≡ false)) l
    never [] h = tt
    never (s ∷ l) h = ((h.0, λ c z. ground (arith, z)), never l h.1)

-- A thread in `wait_until` for which the deadline passes between the test of the loop and the
-- predicate of `atomic_wait_pred` is still inside that as long as the count is above zero.
wait_until-inside :
    (timeout_time : ℕ) (first second : Seen) (seen : List Seen)
    → first.count ≢ 0
    → ltb second.now timeout_time ≡ true
    → All (λ s. (s.count ≢ 0) × (ltb s.now timeout_time ≡ false)) seen
    → inside (wait_until timeout_time (first ∷ second ∷ seen)) ≡ true
unfolding wait_until
wait_until-inside timeout_time first second seen n t h =
    let leaves = λ (s : Seen). not (ltb s.now timeout_time) in
    let ends = λ (p : ℕ) (s : Seen). p == 0 || ltb s.now timeout_time in
    rw ((above_zero first.count n), t) (steps-inside leaves ends reloading seen refl (never seen h))
  where
    never :
        (l : List Seen)
        → All (λ s. (s.count ≢ 0) × (ltb s.now timeout_time ≡ false)) l
        → All
            (λ s. (s.count ≢ 0) × ((c : ℕ) → c ≢ 0 → (c == 0 || ltb s.now timeout_time) ≡ false))
            l
    never [] h = tt
    never (s ∷ l) h = ((h.0.0, λ c z. ground (arith, z, h.0.1)), never l h.1)
