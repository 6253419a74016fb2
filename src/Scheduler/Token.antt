-- ===== src/Scheduler/Token.antt =====
-- `wait_for_task_from_pool( id, tok )` and the `task_runner` that calls it, of src/task_scheduler.cpp:
-- the temporary workers. A list of answers says what `m_continue and tok` comes to each time that it is
-- read.
pub mod Losing
use function_queue.Prelude.{
  ℕ, zero, suc, ◌+◌, ◌%◌, ◌<◌, ◌≡◌, ◌≢◌, refl, sym, ap, ◌∙◌, Bool, true, false, not, List, [], ◌∷◌,
  map, Option, none, some, arith, length, get_elem?, set, ◌==◌, if◌then◌else◌,
}
use function_queue.Outcome.{Outcome, returns, undefined, ◌>>=◌}
use function_queue.MessageQueue.{LockfreeQueue, Waited, returned, waiting, Round, uncons}
use function_queue.Scheduler.{Task, Scheduler, with_tasks, pop_at, pop_front_at, run_task}
use function_queue.Scheduler.Search.{take_from, pop_at-Follows}

-- How the search of the other queues ends: with a task, with the end of the loop, with the return of
-- nothing, or where the answers end.
pub data Found {ℓ} (F : Type ℓ) : Type ℓ where
  hit : Task F → Found F
  nothing_found : Found F
  gave_up : Found F
  no_answer : Found F

-- A task that has been taken is only returned if the answer is still yes.
abbrev pub keep_or_drop {ℓ} : {F : Type ℓ} → List Bool → Task F → Found F × List Bool
keep_or_drop [] tsk = (no_answer, [])
keep_or_drop (true ∷ answers) tsk = (hit tsk, answers)
keep_or_drop (false ∷ answers) tsk = (gave_up, answers)

module _ {ℓ κ} {Q : Type κ} {F : Type ℓ} (lf : LockfreeQueue Q (Task F)) where
  -- `for( auto m = …; m_continue and m != qid and tok; m = ( m + 1 ) % sz )`
  unfoldable pub search_others :
      ℕ → List Bool → ℕ → ℕ → ℕ → List Q → Outcome ((Found F × List Bool) × List Q)
  unfolding pop_at
  search_others zero answers m qid sz qs =
      if m == qid then returns ((nothing_found, answers), qs) else undefined
  search_others (suc fuel) [] m qid sz qs =
      if m == qid then returns ((nothing_found, []), qs) else returns ((no_answer, []), qs)
  search_others (suc fuel) (false ∷ answers) m qid sz qs =
      if m == qid
      then returns ((nothing_found, false ∷ answers), qs)
      else returns ((nothing_found, answers), qs)
  search_others (suc fuel) (true ∷ answers) m qid sz qs =
      if m == qid
      then returns ((nothing_found, true ∷ answers), qs)
      else pop_at lf m qs >>= λ (r, qs'). elim r [
        | none ↦ search_others fuel answers ((m + 1) % sz) qid sz qs'
        | some tsk ↦ returns (keep_or_drop answers tsk, qs')
      ]

  -- The loop of a temporary worker over all queues. Each round has what the others have done to the
  -- queues before it.
  unfoldable pub search_round :
      List (List Q → List Q)
      → List Bool
      → ℕ
      → ℕ
      → List Q
      → Outcome (Waited (Option (Task F)) × List Q)
  unfolding pop_at
  search_round [] answers qid sz qs = returns (waiting, qs)
  search_round (others ∷ rounds) [] qid sz qs = returns (waiting, qs)
  search_round (others ∷ rounds) (false ∷ answers) qid sz qs = returns (returned none, qs)
  search_round (others ∷ rounds) (true ∷ answers) qid sz qs =
      pop_at lf qid (others qs) >>= λ (r, qs'). elim r [
        | none ↦ search_round rounds answers ((qid + 1) % sz) sz qs'
        | some tsk ↦ elim (keep_or_drop answers tsk).0 [
          | hit t ↦ returns (returned (some t), qs')
          | nothing_found ↦ returns (returned none, qs')
          | gave_up ↦ returns (returned none, qs')
          | no_answer ↦ returns (waiting, qs')
        ]
      ]

  -- `wait_for_task_from_pool( id, tok )`
  unfoldable pub wait_for_task_with_token :
      List Bool
      → List (List Q → List Q)
      → List (Round Q)
      → ℕ
      → Scheduler Q F
      → Outcome (Waited (Option (Task F)) × Scheduler Q F)
  unfolding search_others search_round pop_front_at with_tasks
  wait_for_task_with_token [] turns rounds id s = returns (waiting, s)
  wait_for_task_with_token (false ∷ answers) turns rounds id s = returns (returned none, s)
  wait_for_task_with_token (true ∷ answers) turns rounds id s =
      let sz = length s.tasks in
      let qid = id % sz in
      search_others sz answers ((qid + 1) % sz) qid sz s.tasks >>= λ (r, qs). elim r.0 [
        | hit tsk ↦ returns (returned (some tsk), with_tasks s qs)
        | gave_up ↦ returns (returned none, with_tasks s qs)
        | no_answer ↦ returns (waiting, with_tasks s qs)
        | nothing_found ↦
            if not (id == qid)
            then (search_round turns r.1 qid sz qs >>= λ (w, qs'). returns (w, with_tasks s qs'))
            else pop_front_at lf rounds qid qs >>= λ (w, qs'). returns (w, with_tasks s qs')
      ]

  -- `wait_for_task_from_pool( id, pred )` is the same function, with the answers of the predicate.
  abbrev pub wait_for_task_with_pred :
      List Bool
      → List (List Q → List Q)
      → List (Round Q)
      → ℕ
      → Scheduler Q F
      → Outcome (Waited (Option (Task F)) × Scheduler Q F)
  wait_for_task_with_pred = wait_for_task_with_token

  -- One round of the loop of `task_runner( id, tok )`: the task that it was given is run if the answer
  -- is still yes.
  unfoldable pub runner_round :
      (ℕ → ℕ)
      → List Bool
      → Bool
      → List (List Q → List Q)
      → List (Round Q)
      → ℕ
      → Scheduler Q F
      → Outcome (Waited Bool × Scheduler Q F)
  unfolding wait_for_task_with_token run_task
  runner_round counts answers still turns rounds id s =
      wait_for_task_with_token answers turns rounds id s >>= λ (w, s'). elim w [
        | waiting ↦ returns (waiting, s')
        | returned none ↦ returns (returned true, s')
        | returned (some tsk) ↦
            if still then run_task lf counts rounds (some tsk) s' else returns (returned true, s')
      ]
