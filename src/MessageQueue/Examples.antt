-- ===== src/MessageQueue/Examples.antt =====
-- A queue that keeps the contract: a list of at most two items. The theorems at concrete queues.
use function_queue.Prelude.{
  ℕ, ◌≤◌, ◌≡◌, refl, true, false, arith, List, [], ◌∷◌, ◌++◌, none, some, length, ltb,
  if◌then◌else◌,
}
use function_queue.MessageQueue.{
  LockfreeQueue, uncons, try_push_back, failed, success, returned, push_back, pop_front,
}
use function_queue.MessageQueue.Fifo.{
  Call, pushes, pops, pushed, popped, accepted, answered, call_all, call_all-refines,
}

abbrev pub two_slots {ℓ} : (T : Type ℓ) → LockfreeQueue (List T) T
two_slots T = record {
  capacity = 2;
  contents = λ q. q;
  push = λ x q. (ltb (length q) 2, if ltb (length q) 2 then q ++ x ∷ [] else q);
  pop = uncons;
  push-result = λ x q. refl;
  push-contents = λ x q. refl;
  pop-result = λ q. refl;
  pop-contents = λ q. refl;
}

try_push_back_full : try_push_back (two_slots ℕ) 7 (4 ∷ 5 ∷ []) ≡ (failed, 4 ∷ 5 ∷ [])
unfolding try_push_back
try_push_back_full = refl

-- The queue is full at first, and another thread takes an item before the second round.
push_back_second_round :
    push_back (two_slots ℕ) ((true, λ q. q) ∷ (true, λ q. (uncons q).1) ∷ []) 7 (4 ∷ 5 ∷ [])
    ≡ (returned success, 5 ∷ 7 ∷ [])
unfolding push_back
push_back_second_round = refl

pop_front_stopped :
    pop_front (two_slots ℕ) ((true, λ q. q) ∷ (false, λ q. q) ∷ []) [] ≡ (returned none, [])
unfolding pop_front
pop_front_stopped = refl

abbrev many : List (Call ℕ)
many = pushes 7 ∷ pushes 8 ∷ pops ∷ pushes 9 ∷ pops ∷ []

-- The second push finds the queue full.
call_all-refines_example :
    ((call_all (two_slots ℕ) many (4 ∷ [])).0
      ≡ pushed success ∷ pushed failed ∷ popped (some 4) ∷ pushed success ∷ popped (some 7) ∷ [])
    × ((call_all (two_slots ℕ) many (4 ∷ [])).1 ≡ 9 ∷ [])
    × (4 ∷ accepted many (call_all (two_slots ℕ) many (4 ∷ [])).0
        ≡ answered (call_all (two_slots ℕ) many (4 ∷ [])).0
          ++ (call_all (two_slots ℕ) many (4 ∷ [])).1)
    × (length (call_all (two_slots ℕ) many (4 ∷ [])).1 ≤ 2)
call_all-refines_example = call_all-refines (two_slots ℕ) many (4 ∷ []) (omega arith)
