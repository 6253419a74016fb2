-- ===== src/Futures/Examples.antt =====
-- Runs of `reduce_futures`.
use native.Mathlib.Nat.{add_assoc}
use function_queue.Outcome.{returns, undefined, ◌>>=◌}
use function_queue.MessageQueue.{returned, waiting}
use function_queue.Futures.Expected.{Expected, value, exception}
use function_queue.Futures.Member.{
  ready, continued, then_one, code, Member, World, new_member, put, make_future_result, attach,
  next, fork, get, run_code, store_result,
}
use function_queue.Futures.Reachable.{
  Reachable, starts, steps, makes, nexts, runs, no_world, get-Reachable, get-drained,
  run_code-Reachable,
}
use function_queue.Futures.VoidMember.{Void, threw, from_code}
use function_queue.Futures.VoidErrors.{from_code-continued}
use function_queue.Futures.Group.{group_member, functions_done, finish_group, get-functions_done}
use function_queue.Futures.Handle.{
  expired, lock, make_shared, copies, destroys, continues, use_future, expired-use_future,
}
use function_queue.Futures.Adding.{
  dropped, make_future_result_or_throw, make_future_result_on, make_future_result_on-answers,
}
use function_queue.Futures.Join.{run_join, make_joined, join-drained}
use function_queue.Latch.{done, notify}
use function_queue.Futures.Callers.{Calls, Event, comes, goes, event, sets, new_calls}
use function_queue.Futures.Lost.{fork-waiting, store_result-next}
use function_queue.Prelude.{
  ℕ, zero, suc, foldl, ◌+◌, ◌≤◌, ◌<◌, ◌≡◌, ◌⊎◌, ◌≢◌, get_elem?, true, false, ◌==◌, arith, refl, ap,
  [], ◌∷◌, none, some, List,
}
use function_queue.Futures.Reduction.{combine, reduce_futures, reduce_futures-eq-foldl}

add : ℕ → ℕ → Expected ℕ
add a b = value (a + b)

reduce_futures-eq-foldl_example :
    reduce_futures (combine add) (value 1 ∷ value 2 ∷ value 3 ∷ value 4 ∷ value 5 ∷ [])
    ≡ returns (value 15)
unfolding combine add
reduce_futures-eq-foldl_example =
    reduce_futures-eq-foldl add (λ a b c. ap value (add_assoc a b c)) (value 1)
      (value 2 ∷ value 3 ∷ value 4 ∷ value 5 ∷ [])

failed_run : reduce_futures (combine add) (value 1 ∷ exception ∷ value 3 ∷ []) ≡ returns exception
unfolding reduce_futures combine add
failed_run = refl

-- A future that gives 3, one that adds 1 to it, and the two tasks that set them.
abbrev give_3 : Unit {0} → Expected ℕ
give_3 x = value 3

abbrev add_1 : ℕ → Expected ℕ
add_1 v = value (v + 1)

abbrev meaning : ℕ → Expected ℕ
meaning zero = value 3
meaning (suc zero) = value 4
meaning (suc (suc zero)) = value 9
meaning (suc (suc (suc i))) = exception

abbrev one_made : World ℕ
one_made = record { members = new_member ∷ []; tasks = code give_3 0 ∷ [] }

abbrev continued_member : Member ℕ
continued_member = record {
  next = some (then_one (record { func = add_1; target = 1 }));
  count = 0;
  status = continued;
  result = none;
}

abbrev one_chained : World ℕ
one_chained = record { members = continued_member ∷ new_member ∷ []; tasks = code give_3 0 ∷ [] }

abbrev one_passed : World ℕ
one_passed = record {
  members = continued_member ∷ new_member ∷ [];
  tasks = code (λ _. add_1 3) 1 ∷ [];
}

abbrev set_to_4 : Member ℕ
set_to_4 = record { next = none; count = 0; status = ready; result = some (value 4) }

abbrev all_done : World ℕ
all_done = record { members = continued_member ∷ set_to_4 ∷ []; tasks = [] }

one_made-Reachable : Reachable meaning one_made
unfolding make_future_result
one_made-Reachable = steps no_world one_made starts (makes give_3 one_made refl refl)

one_chained-Reachable : Reachable meaning one_chained
unfolding next attach
one_chained-Reachable =
    steps one_made one_chained one_made-Reachable
      (nexts 0 add_1 1 one_chained (new_member, refl, refl) refl refl)

all_done-Reachable : Reachable meaning all_done
unfolding run_code
all_done-Reachable =
    steps one_passed all_done
      (steps one_chained one_passed one_chained-Reachable (runs 0 one_passed refl))
      (runs 0 all_done refl)

get-Reachable_example : (get one_chained 1 ≡ waiting) ⊎ (get one_chained 1 ≡ returned (returns 4))
get-Reachable_example =
    get-Reachable meaning one_chained 1 one_chained-Reachable (new_member, refl, refl)

get-drained_example : get all_done 1 ≡ returned (returns 4)
get-drained_example = get-drained meaning all_done 1 all_done-Reachable (set_to_4, refl, refl) refl

run_code-Reachable_example :
    (w' : World ℕ) × (run_code one_chained 0 ≡ returns w') × Reachable meaning w'
run_code-Reachable_example = run_code-Reachable meaning one_chained 0 one_chained-Reachable

-- A third future, which gives 9.
abbrev give_9 : Unit {0} → Expected ℕ
give_9 x = value 9

abbrev third_made : World ℕ
third_made = record {
  members = continued_member ∷ set_to_4 ∷ new_member ∷ [];
  tasks = code give_9 2 ∷ [];
}

abbrev third_set : Member ℕ
third_set = record { next = none; count = 0; status = ready; result = some (value 9) }

abbrev third_done : World ℕ
third_done = record { members = continued_member ∷ set_to_4 ∷ third_set ∷ []; tasks = [] }

third_done-Reachable : Reachable meaning third_done
unfolding make_future_result run_code
third_done-Reachable =
    steps third_made third_done
      (steps all_done third_made all_done-Reachable (makes give_9 third_made refl refl))
      (runs 0 third_done refl)

sum_of : List ℕ → Expected ℕ
sum_of vs = value (foldl (λ a b. a + b) 0 vs)

join-drained_example :
    (w' : World ℕ) × (run_join (make_joined third_done) (1 ∷ 2 ∷ []) sum_of 3
      ≡ returned (returns w'))
    × (get w' 3 ≡ returned (returns 13))
unfolding sum_of
join-drained_example =
    join-drained meaning third_done (1 ∷ 2 ∷ []) sum_of third_done-Reachable refl
      ((set_to_4, refl, refl), ((third_set, refl, refl), tt))

make_future_result_on-answers_example :
    ((make_future_result_or_throw dropped all_done give_9 >>= λ r. returns (get r.1 r.0))
      ≡ returns waiting)
    × ((make_future_result_or_throw dropped all_done give_9 >>= λ r.
          run_code r.1 0 >>= λ w'. returns (get w' r.0))
        ≡ returns waiting)
    × (get (make_future_result_on dropped all_done 2 give_9).1 2 ≡ waiting)
    × ((w' : World ℕ) × (run_code (make_future_result_on dropped all_done 2 give_9).1 0
          ≡ returns w')
        × (w'.tasks ≡ [])
        × (get w' 2 ≡ waiting))
make_future_result_on-answers_example =
    make_future_result_on-answers dropped all_done 2 give_9 refl (omega arith)

abbrev one_set : World ℕ
one_set = record { members = set_to_4 ∷ []; tasks = [] }

fork-waiting_example :
    ((w' : World ℕ) × (fork one_set 0 (add_1 ∷ add_1 ∷ []) ≡ returns (1 ∷ 2 ∷ [], w'))
      × ((k : ℕ) → run_code w' k ≡ returns w')
      × ((j : ℕ) → 1 ≤ j → j < 3 → get w' j ≡ waiting))
    × ((next one_set 0 add_1 >>= λ r. run_code r.1 0 >>= λ w'. returns (get w' r.0))
        ≡ returns (returned (returns 5)))
fork-waiting_example =
    fork-waiting one_set 0 set_to_4 4 add_1 (add_1 ∷ add_1 ∷ []) refl refl refl refl refl

-- The worker has the task of the only future in hand.
abbrev one_in_hand : World ℕ
one_in_hand = record { members = new_member ∷ []; tasks = [] }

store_result-next_example :
    (w' : World ℕ) × (w'' : World ℕ) × (next one_in_hand 0 add_1 ≡ returns (1, w'))
    × (store_result w' 0 (value 3) ≡ returns w'')
    × ((k : ℕ) → run_code w'' k ≡ returns w'')
    × (get w'' 1 ≡ waiting)
store_result-next_example =
    store_result-next one_in_hand 0 new_member add_1 (value 3) refl refl refl refl

-- A future without a value that waits for its code, and the one of its continuation.
abbrev void_waiting : Member Void
void_waiting = record {
  next = some (then_one (record { func = λ x. value x; target = 1 }));
  count = 0;
  status = continued;
  result = none;
}

abbrev void_pair : World Void
void_pair = record { members = void_waiting ∷ new_member ∷ []; tasks = [] }

from_code-continued_example :
    (w' : World Void) × (from_code true void_pair 0 (λ x. exception) ≡ (w', threw))
    × (w'.tasks ≡ [])
    × ((j : ℕ) → 0 ≢ j → get_elem? w'.members j ≡ get_elem? void_pair.members j)
from_code-continued_example =
    from_code-continued void_pair 0 void_waiting (record { func = λ x. value x; target = 1 })
      (λ x. exception) refl refl

-- A group of two functions.
abbrev one_group : World ℕ
one_group = record { members = group_member 2 ∷ []; tasks = [] }

get-functions_done_example :
    (get (put one_group 0 (functions_done 2 (group_member 2))) 0 ≡ returned undefined)
    × (get (put one_group 0 (finish_group (value 5) (functions_done 2 (group_member 2)))) 0
        ≡ returned (returns 5))
    × (((finish_group (value 5) (functions_done 2 (group_member {A = ℕ} 2))).count == 0) ≡ false)
get-functions_done_example =
    get-functions_done one_group 0 2 2 (value 5) (omega arith) (omega arith) (omega arith)

-- A handle whose future is copied, continued and destroyed with its copy never expires.
expired-use_future_example :
    (expired (foldl use_future make_shared (copies ∷ destroys ∷ destroys ∷ [])) ≡ true)
    × (lock (foldl use_future make_shared (copies ∷ destroys ∷ destroys ∷ [])) ≡ none)
unfolding use_future
expired-use_future_example = expired-use_future (copies ∷ destroys ∷ destroys ∷ [])

leaked_run :
    expired (foldl use_future make_shared (copies ∷ continues ∷ destroys ∷ destroys ∷ [])) ≡ false
unfolding use_future
leaked_run = refl

-- Two threads call `get`; the first is blocked when the future is set, the second is not yet.
abbrev two_callers : List Event
two_callers = comes ∷ comes ∷ goes 0 ∷ goes 1 ∷ goes 0 ∷ []

abbrev go_on : List Event
go_on = goes 1 ∷ goes 0 ∷ comes ∷ goes 1 ∷ goes 0 ∷ []

abbrev served : Calls ℕ
served = foldl event (sets (foldl event new_calls two_callers) (value 4)) go_on

second_caller_run : get_elem? served.callers 1 ≡ some done
unfolding event sets notify
second_caller_run = refl
