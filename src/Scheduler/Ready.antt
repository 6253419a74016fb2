-- ===== src/Scheduler/Ready.antt =====
-- What `run_task` does with a task that is ready.
use function_queue.Prelude.{
  ℕ, ◌+◌, ◌%◌, ◌≡◌, refl, subst, Bool, true, false, not, List, Option, none, some, if◌then◌else◌,
}
use function_queue.Outcome.{Outcome, returns, throws, undefined, ◌>>=◌}
use function_queue.MessageQueue.{LockfreeQueue, Waited, returned, Round}
use function_queue.Scheduler.{
  Task, Scheduler, is_ready, with_tasks, get_task_id, send_task, run_task, push_at, push_back_at,
  call_task,
}
use function_queue.QueueLoops.{for_others}

module _ {ℓ κ} {Q : Type κ} {F : Type ℓ} (lf : LockfreeQueue Q (Task F)) (counts : ℕ → ℕ)
    (rounds : List (Round Q)) where
  -- If it ends or waits, it has run nothing.
  RunsNothing : List (Task F) → Outcome (Waited Bool × Scheduler Q F) → Type ℓ
  RunsNothing ran (returns (w, s')) = s'.ran ≡ ran
  RunsNothing ran throws = Unit
  RunsNothing ran undefined = Unit

  send_task-RunsNothing :
      (tsk : Task F) (id : ℕ) (s : Scheduler Q F)
      → RunsNothing s.ran (send_task lf rounds (some tsk) id s)
  unfolding send_task with_tasks RunsNothing
  send_task-RunsNothing tsk id s = by_continue s.continue
    where
      waits : Outcome (Waited Bool × List Q) → Outcome (Waited Bool × Scheduler Q F)
      waits o = o >>= λ (w, q''). returns (w, with_tasks s q'')

      by_wait : (o : Outcome (Waited Bool × List Q)) → RunsNothing s.ran (waits o)
      by_wait (returns (w, q)) = refl
      by_wait throws = tt
      by_wait undefined = tt

      loops : Outcome (Option (Unit {0}) × List Q) → Outcome (Waited Bool × Scheduler Q F)
      loops o = o >>= λ (r', q'). elim r' [
        | some _ ↦ returns (returned true, with_tasks s q')
        | none ↦ waits (push_back_at lf rounds tsk id q')
      ]

      by_loop : (o : Outcome (Option (Unit {0}) × List Q)) → RunsNothing s.ran (loops o)
      by_loop (returns (some _, q)) = refl
      by_loop (returns (none, q)) = by_wait (push_back_at lf rounds tsk id q)
      by_loop throws = tt
      by_loop undefined = tt

      sends : Outcome (Option (Unit {0}) × List Q) → Outcome (Waited Bool × Scheduler Q F)
      sends o = o >>= λ (r, q). elim r [
        | some _ ↦ returns (returned true, with_tasks s q)
        | none ↦ loops (
            for_others (push_at lf tsk) s.num_threads ((id + 1) % s.num_threads) id s.num_threads q)
      ]

      by_own : (o : Outcome (Option (Unit {0}) × List Q)) → RunsNothing s.ran (sends o)
      by_own (returns (some _, q)) = refl
      by_own (returns (none, q)) =
          by_loop (
            for_others (push_at lf tsk) s.num_threads ((id + 1) % s.num_threads) id s.num_threads q)
      by_own throws = tt
      by_own undefined = tt

      by_continue :
          (b : Bool)
          → RunsNothing s.ran
              (if not b then returns (returned true, s) else sends (push_at lf tsk id s.tasks))
      by_continue true = by_own (push_at lf tsk id s.tasks)
      by_continue false = refl

  -- `run_task` never runs a task that is ready, in whatever state the scheduler is and whatever it
  -- returns.
  pub run_task-ready :
      (tsk : Task F) (s s' : Scheduler Q F) (w : Waited Bool)
      → is_ready counts tsk ≡ true
      → run_task lf counts rounds (some tsk) s ≡ returns (w, s')
      → s'.ran ≡ s.ran
  unfolding run_task RunsNothing get_task_id
  run_task-ready tsk s s' w ready ends = subst (RunsNothing s.ran) ends (by_function tsk.function)
    where
      again : Outcome (Waited Bool × Scheduler Q F)
      again = let (id, t) = get_task_id s in send_task lf rounds (some tsk) id t

      by_ready :
          (b : Bool)
          → b ≡ true
          → RunsNothing s.ran (if b then again else returns (returned true, call_task tsk s))
      by_ready true e = send_task-RunsNothing tsk (get_task_id s).0 (get_task_id s).1
      by_ready false e = absurd (cc e)

      by_continue :
          (b : Bool)
          → RunsNothing s.ran (
              if not b
              then returns (returned true, s)
              else if is_ready counts tsk
              then again
              else returns (returned true, call_task tsk s))
      by_continue true = by_ready (is_ready counts tsk) ready
      by_continue false = refl

      by_function :
          (o : Option F)
          → RunsNothing s.ran (elim o [
            | none ↦ returns (returned true, s)
            | some f ↦
                if not s.continue
                then returns (returned true, s)
                else if is_ready counts tsk
                then again
                else returns (returned true, call_task tsk s)
          ])
      by_function none = refl
      by_function (some f) = by_continue s.continue
