-- ===== src/Scheduler.antt =====
-- `task_scheduler` of src/task_scheduler.cpp and include/daw/fs/task_scheduler.h, with `task_t` of
-- include/daw/fs/impl/task.h: the queues of the workers, how a task is sent, taken and run. An
-- operation sees the queues and `m_continue` without other threads between its steps, so the loops do
-- not read the flag again, except the loops that wait, which have their rounds. `counts` is the count
-- of each latch.
mod Cycle
mod Search
mod Contents
mod Waiting
mod Pending
pub mod Running
mod Room
mod Runner
mod Wrapper
pub mod Dispatch
mod Ready
mod Pool
mod Overrun
mod Token
mod Examples
use function_queue.Prelude.{
  ℕ, zero, suc, ◌+◌, ◌-◌, ◌%◌, Bool, true, false, not, List, [], ◌∷◌, ◌++◌, Option, none, some,
  length, get_elem?, set, if◌then◌else◌, ◌==◌, leb,
}
use function_queue.Outcome.{Outcome, returns, undefined, ◌>>=◌}
use function_queue.QueueLoops.{for_others, for_range}
use function_queue.MessageQueue.{
  LockfreeQueue, PushBackResult, failed, success, Waited, returned, waiting, Round, try_push_back,
  try_pop_front, pop_front, push_back,
}

-- `task_t`: its function, if it has one, and the latch it waits on, if it has one.
pub record Task {ℓ} (F : Type ℓ) : Type ℓ where
  pub function : Option F
  pub latch : Option ℕ

unfoldable pub is_ready {ℓ} : {F : Type ℓ} → (ℕ → ℕ) → Task F → Bool
is_ready counts tsk = elim tsk.latch [ none ↦ true | some l ↦ counts l == 0 ]

-- `m_impl`, and the tasks that were run, the last one last.
pub record Scheduler {ℓ κ} (Q : Type κ) (F : Type ℓ) : Type (ℓ ⊔ κ) where
  pub tasks : List Q
  pub num_threads : ℕ
  pub continue : Bool
  pub task_count : ℕ
  pub ran : List (Task F)

unfoldable pub with_tasks {ℓ κ} : {Q : Type κ} {F : Type ℓ} → Scheduler Q F → List Q → Scheduler Q F
with_tasks s qs = record {
  tasks = qs;
  num_threads = s.num_threads;
  continue = s.continue;
  task_count = s.task_count;
  ran = s.ran;
}

-- `get_task_id`: a counter of 64 bits, modulo the number of queues.
unfoldable pub get_task_id {ℓ κ} : {Q : Type κ} {F : Type ℓ} → Scheduler Q F → ℕ × Scheduler Q F
get_task_id s = (
  s.task_count % length s.tasks,
  record {
    tasks = s.tasks;
    num_threads = s.num_threads;
    continue = s.continue;
    task_count = (s.task_count + 1) % 18446744073709551616;
    ran = s.ran;
  },
)

-- `( *tsk )( )`
unfoldable pub call_task {ℓ κ} : {Q : Type κ} {F : Type ℓ} → Task F → Scheduler Q F → Scheduler Q F
call_task tsk s = record {
  tasks = s.tasks;
  num_threads = s.num_threads;
  continue = s.continue;
  task_count = s.task_count;
  ran = s.ran ++ tsk ∷ [];
}

module _ {ℓ κ} {Q : Type κ} {F : Type ℓ} (lf : LockfreeQueue Q (Task F)) where
  -- `m_tasks[m].try_push_back( … )`: is it a success?
  unfoldable pub push_at : Task F → ℕ → List Q → Outcome (Option (Unit {0}) × List Q)
  push_at tsk m qs = elim (get_elem? qs m) [
    | none ↦ undefined
    | some q ↦
        let (r, q') = try_push_back lf tsk q in
        returns (elim r [ failed ↦ none | success ↦ some tt ], set qs m q')
  ]

  unfoldable pub pop_at : ℕ → List Q → Outcome (Option (Task F) × List Q)
  pop_at m qs = elim (get_elem? qs m) [
    | none ↦ undefined
    | some q ↦ let (r, q') = try_pop_front lf q in returns (r, set qs m q')
  ]

  -- The end of `send_task`: it waits for room in its own queue.
  unfoldable pub push_back_at :
      List (Round Q) → Task F → ℕ → List Q → Outcome (Waited Bool × List Q)
  push_back_at rounds tsk id qs = elim (get_elem? qs id) [
    | none ↦ undefined
    | some q ↦
        let (w, q') = push_back lf rounds tsk q in
        returns (
          elim w [
            | returned r ↦ returned (elim r [ failed ↦ false | success ↦ true ])
            | waiting ↦ waiting
          ],
          set qs id q',
        )
  ]

  unfoldable pub send_task :
      List (Round Q) → Option (Task F) → ℕ → Scheduler Q F → Outcome (Waited Bool × Scheduler Q F)
  unfolding push_at push_back_at for_others with_tasks
  send_task rounds none id s = returns (returned true, s)
  send_task rounds (some tsk) id s =
      if not s.continue
      then returns (returned true, s)
      else push_at tsk id s.tasks >>= λ (r, qs). elim r [
        | some _ ↦ returns (returned true, with_tasks s qs)
        | none ↦
            for_others (push_at tsk) s.num_threads ((id + 1) % s.num_threads) id s.num_threads qs
            >>= λ (r', qs'). elim r' [
              | some _ ↦ returns (returned true, with_tasks s qs')
              | none ↦
                  push_back_at rounds tsk id qs' >>= λ (w, qs''). returns (w, with_tasks s qs'')
            ]
      ]

  -- What `run_next_task` does to find a task: its own queue, the ones behind it, the ones before it.
  unfoldable pub next_task : ℕ → List Q → Outcome (Option (Task F) × List Q)
  unfolding pop_at for_range
  next_task id qs = pop_at id qs >>= λ (r, qs'). elim r [
    | some tsk ↦ returns (some tsk, qs')
    | none ↦ for_range pop_at (id + 1) (length qs - (id + 1)) qs' >>= λ (r', qs''). elim r' [
      | some tsk ↦ returns (some tsk, qs'')
      | none ↦ for_range pop_at 0 id qs''
    ]
  ]

  -- The end of `wait_for_task_from_pool`: it waits for a task in its own queue.
  unfoldable pub pop_front_at :
      List (Round Q) → ℕ → List Q → Outcome (Waited (Option (Task F)) × List Q)
  pop_front_at rounds id qs = elim (get_elem? qs id) [
    | none ↦ undefined
    | some q ↦ let (w, q') = pop_front lf rounds q in returns (w, set qs id q')
  ]

  -- `wait_for_task_from_pool( id, sem )`; a round that waits goes on while the scheduler runs and the
  -- latch is not open.
  unfoldable pub wait_for_task_from_pool :
      List (Round Q) → ℕ → Scheduler Q F → Outcome (Waited (Option (Task F)) × Scheduler Q F)
  unfolding pop_at pop_front_at for_others with_tasks
  wait_for_task_from_pool rounds id s =
      if not s.continue
      then returns (returned none, s)
      else pop_at id s.tasks >>= λ (r, qs). elim r [
        | some tsk ↦ returns (returned (some tsk), with_tasks s qs)
        | none ↦
            for_others pop_at s.num_threads ((id + 1) % s.num_threads) id s.num_threads qs
            >>= λ (r', qs'). elim r' [
              | some tsk ↦ returns (returned (some tsk), with_tasks s qs')
              | none ↦ pop_front_at rounds id qs' >>= λ (w, qs''). returns (w, with_tasks s qs'')
            ]
      ]

  -- `wait_for_task_from_pool( id )`: a temporary worker, whose id is not that of a queue, does not wait.
  unfoldable pub wait_for_task_of_worker :
      List (Round Q) → ℕ → Scheduler Q F → Outcome (Waited (Option (Task F)) × Scheduler Q F)
  unfolding pop_at pop_front_at for_range with_tasks
  wait_for_task_of_worker rounds id s =
      if not s.continue
      then returns (returned none, s)
      else let q_id = id % length s.tasks in
        for_range pop_at q_id (length s.tasks - q_id) s.tasks >>= λ (r, qs). elim r [
          | some tsk ↦ returns (returned (some tsk), with_tasks s qs)
          | none ↦ for_range pop_at 0 q_id qs >>= λ (r', qs'). elim r' [
            | some tsk ↦ returns (returned (some tsk), with_tasks s qs')
            | none ↦
                if leb (length s.tasks) id
                then (pop_at q_id qs' >>= λ (r'', qs''). returns (returned r'', with_tasks s qs''))
                else pop_front_at rounds q_id qs' >>= λ (w, qs''). returns (w, with_tasks s qs'')
          ]
        ]

  -- `run_task`. The call of the task is recorded; the turns of `run_next_task` that `task_wrapper` adds
  -- behind the function are further turns. What the function throws is swallowed.
  unfoldable pub run_task :
      (ℕ → ℕ)
      → List (Round Q)
      → Option (Task F)
      → Scheduler Q F
      → Outcome (Waited Bool × Scheduler Q F)
  unfolding send_task call_task get_task_id is_ready
  run_task counts rounds none s = returns (returned true, s)
  run_task counts rounds (some tsk) s = elim tsk.function [
    | none ↦ returns (returned true, s)
    | some f ↦
        if not s.continue
        then returns (returned true, s)
        else if is_ready counts tsk
        then (let (id, s') = get_task_id s in send_task rounds (some tsk) id s')
        else returns (returned true, call_task tsk s)
  ]

  unfoldable pub run_next_task :
      (ℕ → ℕ) → List (Round Q) → ℕ → Scheduler Q F → Outcome (Waited Bool × Scheduler Q F)
  unfolding next_task run_task with_tasks
  run_next_task counts rounds id s = next_task id s.tasks >>= λ (r, qs). elim r [
    | none ↦ returns (returned false, with_tasks s qs)
    | some tsk ↦ run_task counts rounds (some tsk) (with_tasks s qs) >>= λ (w, s').
        returns (elim w [ returned _ ↦ returned true | waiting ↦ waiting ], s')
  ]
