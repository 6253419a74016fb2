-- ===== src/TaskGroup.antt =====
-- `schedule_task`, `create_waitable_task`, `create_task_group` and `invoke_tasks` of
-- include/daw/fs/task_scheduler.h: tasks that notify one latch. A task works on a shared state and says
-- whether it threw; the workers take the scheduled tasks in any order.
mod Counting
mod Examples
use function_queue.Prelude.{
  ℕ, zero, suc, Bool, true, false, List, [], ◌∷◌, ◌++◌, length, if◌then◌else◌,
}
use function_queue.Latch.{fetch_sub}

-- What the tasks share, the count of the latch, and the tasks that have been scheduled and have not run.
pub record Group {ℓ} (S : Type ℓ) : Type ℓ where
  pub shared : S
  pub count : ℕ
  pub scheduled : List (S → S × Bool)

module _ {ℓ} {S : Type ℓ} where
  abbrev pub notify : Group S → Group S
  unfolding fetch_sub
  notify g = record { shared = g.shared; count = fetch_sub g.count; scheduled = g.scheduled }

  -- `schedule_task`, with what `add_task` answers.
  abbrev pub schedule_task : Bool → (S → S × Bool) → Group S → Bool × Group S
  schedule_task false task g = (false, g)
  schedule_task true task g =
      (true, record { shared = g.shared; count = g.count; scheduled = g.scheduled ++ task ∷ [] })

  -- `st`: a task that is not accepted is counted as done.
  abbrev pub st : Bool → (S → S × Bool) → Group S → Group S
  unfolding fetch_sub
  st accepted task g = let (ok, g') = schedule_task accepted task g in if ok then g' else notify g'

  -- `( st( tasks ) + ... )`; each task comes with the answer that it gets.
  unfoldable pub schedule_all : List (Bool × (S → S × Bool)) → Group S → Group S
  unfolding fetch_sub
  schedule_all [] g = g
  schedule_all ((accepted, task) ∷ tasks) g = schedule_all tasks (st accepted task g)

  -- `create_task_group`
  unfoldable pub create_task_group : List (Bool × (S → S × Bool)) → S → Group S
  unfolding schedule_all
  create_task_group tasks s =
      schedule_all tasks (record { shared = s; count = length tasks; scheduled = [] })

  -- The scheduled task at position `k`, and the others.
  abbrev pub remove : ℕ → List (S → S × Bool) → List (S → S × Bool) × List (S → S × Bool)
  remove k [] = ([], [])
  remove zero (t ∷ ts) = (t ∷ [], ts)
  remove (suc k) (t ∷ ts) = let (r, ts') = remove k ts in (r, t ∷ ts')

  -- A worker runs the task at position `k`, if there is one. The latch is notified when the scope is
  -- left, by an exception too.
  unfoldable pub run_scheduled : ℕ → Group S → Group S
  unfolding fetch_sub
  run_scheduled k g =
      let (r, ts) = remove k g.scheduled in
      elim r [
        | [] ↦ g
        | task ∷ more ↦
            notify (record { shared = (task g.shared).0; count = g.count; scheduled = ts })
      ]

  -- The workers take tasks at these positions, one after the other.
  abbrev pub run_all : List ℕ → Group S → Group S
  run_all [] g = g
  run_all (k ∷ ks) g = run_all ks (run_scheduled k g)
