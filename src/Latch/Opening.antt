-- ===== src/Latch/Opening.antt =====
-- When a latch is open, and who wakes up.
use function_queue.Prelude.{
  ℕ, zero, suc, ◌+◌, ◌%◌, ◌≤◌, ◌<◌, ◌≡◌, refl, List, [], ◌∷◌, arith, foldl, ◌==◌,
}
use function_queue.Latch.{
  Latch, Step, adds, notifies, notifies_one, waits, step, try_wait, fetch_add, fetch_sub,
  add_notifier, notify, notify_one,
}

-- How many of the steps count the latch up, and down.
abbrev pub added : List Step → ℕ
added [] = 0
added (adds ∷ ss) = suc (added ss)
added (notifies ∷ ss) = added ss
added (notifies_one ∷ ss) = added ss
added (waits i ∷ ss) = added ss

abbrev pub notified : List Step → ℕ
notified [] = 0
notified (adds ∷ ss) = notified ss
notified (notifies ∷ ss) = suc (notified ss)
notified (notifies_one ∷ ss) = suc (notified ss)
notified (waits i ∷ ss) = notified ss

count-waits : (l : Latch) (i : ℕ) → (step l (waits i)).count ≡ l.count
unfolding step
count-waits l i = refl

-- The count is the balance, modulo 2 ^ 64.
count-steps :
    (l : Latch) (ss : List Step)
    → ((foldl step l ss).count + notified ss) % 18446744073709551616
      ≡ (l.count + added ss) % 18446744073709551616
unfolding step fetch_add fetch_sub add_notifier notify notify_one
count-steps l [] = refl
count-steps l (adds ∷ ss) = omega (arith, count-steps (step l adds) ss)
count-steps l (notifies ∷ ss) = omega (arith, count-steps (step l notifies) ss)
count-steps l (notifies_one ∷ ss) = omega (arith, count-steps (step l notifies_one) ss)
count-steps l (waits i ∷ ss) = omega (arith, count-waits l i, count-steps (step l (waits i)) ss)

count-bound :
    (l : Latch) (ss : List Step)
    → l.count < 18446744073709551616
    → (foldl step l ss).count < 18446744073709551616
unfolding step fetch_add fetch_sub add_notifier notify notify_one
count-bound l [] h = h
count-bound l (adds ∷ ss) h = count-bound (step l adds) ss (omega arith)
count-bound l (notifies ∷ ss) h = count-bound (step l notifies) ss (omega arith)
count-bound l (notifies_one ∷ ss) h = count-bound (step l notifies_one) ss (omega arith)
count-bound l (waits i ∷ ss) h = count-bound (step l (waits i)) ss h

-- As long as the count stays in the range of 64 bits and no notification is one too many, the latch is
-- open if and only if it was notified as many times as it was set to and added to, in whatever order
-- the steps of the threads happen.
pub try_wait-steps :
    (l : Latch) (ss : List Step)
    → l.count + added ss < 18446744073709551616
    → notified ss ≤ l.count + added ss
    → try_wait (foldl step l ss) ≡ (notified ss == l.count + added ss)
unfolding try_wait
try_wait-steps l ss h n =
    let balance : (foldl step l ss).count + notified ss ≡ l.count + added ss =
      exact (foldl step l ss).count (count-bound l ss (omega arith)) (count-steps l ss) in
    ground (arith, balance)
  where
    exact :
        (c : ℕ)
        → c < 18446744073709551616
        → (c + notified ss) % 18446744073709551616 ≡ (l.count + added ss) % 18446744073709551616
        → c + notified ss ≡ l.count + added ss
    exact c b e = omega arith

abbrev pred : ℕ → ℕ
pred zero = zero
pred (suc n) = n

-- The count that the steps find goes up to 2 ^ 64 - 1 at most, and is not 0 when it is counted down.
abbrev pub Balanced : ℕ → List Step → Type 0
Balanced c [] = Unit
Balanced c (adds ∷ ss) = (suc c < 18446744073709551616) × Balanced (suc c) ss
Balanced c (notifies ∷ ss) = (0 < c) × Balanced (pred c) ss
Balanced c (notifies_one ∷ ss) = (0 < c) × Balanced (pred c) ss
Balanced c (waits i ∷ ss) = Balanced c ss

-- A count above 0 goes down by one.
pub fetch_sub-pos : (n : ℕ) → 0 < n → n < 18446744073709551616 → suc (fetch_sub n) ≡ n
unfolding fetch_sub
fetch_sub-pos n p h = omega arith
