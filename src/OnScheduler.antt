-- ===== src/OnScheduler.antt =====
-- A parallel algorithm on the scheduler: `partition_range_pos` of include/daw/fs/impl/algorithms_impl.h
-- adds the tasks of the parts with `schedule_task` of include/daw/fs/task_scheduler.h, and the workers
-- of src/task_scheduler.cpp run them. A task stands for the part with its number. The scheduler is
-- running, and its `m_num_threads` is the number of its queues. What the caller does in
-- `ts.wait_for( sem )` behind the loop, with the thread that `wait_for_scope` may add, is not in this
-- model: the turns here are those of the workers.
mod Algorithms
mod Examples
use mathlib.Core.List.Permᴰ
use function_queue.Prelude.{
  ℕ, ◌+◌, ◌*◌, ◌≤◌, ◌<◌, ◌≡◌, refl, sym, ap, subst, ◌∙◌, List, [], ◌∷◌, ◌++◌, map, Option, none,
  some, Bool, true, append_assoc, length, All, Permᴰ, range, range_from, foldl, arith,
  length-range_from,
}
use function_queue.Outcome.{Outcome, returns, ◌>>=◌}
use function_queue.Ranges.{View, Policy}
use function_queue.Tasks.{IsSchedule}
use function_queue.MessageQueue.{LockfreeQueue, Round}
use function_queue.Scheduler.{Task, Scheduler}
use function_queue.Scheduler.Running.{pending, run_turns}
use function_queue.Scheduler.Dispatch.{Event, added, InRange, make_task, happen, happen_complete}
use function_queue.Algorithms.Reduce.{parallel_reduce}
use function_queue.Algorithms.Reduce.Sequential.{parallel_reduce-eq-foldl}

-- The parts whose tasks were run, in the order in which they were run.
abbrev pub part_of : Task ℕ → List ℕ
part_of tsk = elim tsk.function [ none ↦ [] | some n ↦ n ∷ [] ]

abbrev pub parts_run : List (Task ℕ) → List ℕ
parts_run [] = []
parts_run (tsk ∷ tsks) = part_of tsk ++ parts_run tsks

parts_run-map : (latch : ℕ) (ns : List ℕ) → parts_run (map (make_task latch) ns) ≡ ns
parts_run-map latch [] = refl
parts_run-map latch (n ∷ ns) = ap (◌∷◌ n) (parts_run-map latch ns)

parts_run-perm : {xs ys : List (Task ℕ)} → Permᴰ xs ys → Permᴰ (parts_run xs) (parts_run ys)
parts_run-perm Permᴰ.nil = Permᴰ.nil
parts_run-perm (Permᴰ.cons {a = a} {b = b} {l₁ = l} {l₂ = m} e p) =
    subst (λ c. Permᴰ (part_of a ++ parts_run l) (part_of c ++ parts_run m)) e
      (Permᴰ.append_left (part_of a) (parts_run-perm p))
parts_run-perm (Permᴰ.swap {a = a} {b = b} {a' = a'} {b' = b'} {l = l} e e') =
    subst
      (λ c.
        Permᴰ (part_of a ++ (part_of b ++ parts_run l)) (part_of a' ++ (part_of c ++ parts_run l)))
      e
      (subst
        (λ c.
          Permᴰ (part_of a ++ (part_of b ++ parts_run l)) (part_of c ++ (part_of a ++ parts_run l)))
        e'
        (subst (λ k. Permᴰ k (part_of b ++ (part_of a ++ parts_run l)))
          (append_assoc (part_of a) (part_of b) (parts_run l))
          (subst (λ k. Permᴰ ((part_of a ++ part_of b) ++ parts_run l) k)
            (append_assoc (part_of b) (part_of a) (parts_run l))
            (Permᴰ.append_right (parts_run l) (Permᴰ.append_comm (part_of a) (part_of b))))))
parts_run-perm (Permᴰ.trans p q) = Permᴰ.trans (parts_run-perm p) (parts_run-perm q)

module _ {κ} {Q : Type κ} (lf : LockfreeQueue Q (Task ℕ)) (counts : ℕ → ℕ) (rounds : List (Round Q))
    (latch : ℕ) where
  -- The order of the tasks of a range is the order in which the workers run them.
  pub happen-IsSchedule :
      {V : Type 0} (ranges : List V) (es : List (Event ℕ)) (ids : List ℕ) (s : Scheduler Q ℕ)
      → added es ≡ range (length ranges)
      → counts latch ≡ 1
      → s.continue ≡ true
      → s.num_threads ≡ length s.tasks
      → 0 < length s.tasks
      → s.ran ≡ []
      → pending lf counts rounds s ≡ []
      → InRange (length s.tasks) es
      → All (λ id. id < length s.tasks) ids
      → length ranges ≤ lf.capacity * length s.tasks
      → length ranges ≤ length ids
      → (s' : Scheduler Q ℕ) × ((happen lf counts rounds latch es s
            >>= run_turns lf counts rounds ids)
          ≡ returns s')
        × IsSchedule ranges (parts_run s'.ran)
  happen-IsSchedule ranges es ids s parts new c n q r e in_range workers space enough =
      let k : length (added es) ≡ length ranges =
        ap length parts ∙ length-range_from 0 (length ranges) in
      let (s', ends, empty, done) =
        happen_complete lf counts rounds latch es ids s new c n q r e in_range workers
          (omega (arith, k)) (omega (arith, k)) in
      (
        s',
        ends,
        subst (Permᴰ (parts_run s'.ran)) (parts_run-map latch (added es) ∙ parts)
            (parts_run-perm done),
      )

  -- The tasks of the parts are added, one after the other, to a running scheduler whose `m_num_threads`
  -- is the number of its queues, and whose queues are empty and have room for all of them together. The
  -- workers take turns meanwhile and afterwards, in any order, at least one turn for each part once all
  -- are added. `parallel_reduce` with its tasks in the order in which they were then run returns the
  -- sequential fold, for every associative operation and every policy.
  pub parallel_reduce-on_scheduler :
      {A : Type 0} (op : A → A → A)
      → ((a b c : A) → op (op a b) c ≡ op a (op b c))
      → (policy : Policy) (init : A) (xs : List A) (es : List (Event ℕ)) (ids : List ℕ)
        (s : Scheduler Q ℕ)
      → added es ≡ range (length (policy.split (length xs) (length s.tasks)))
      → counts latch ≡ 1
      → s.continue ≡ true
      → s.num_threads ≡ length s.tasks
      → 0 < length s.tasks
      → s.ran ≡ []
      → pending lf counts rounds s ≡ []
      → InRange (length s.tasks) es
      → All (λ id. id < length s.tasks) ids
      → length (policy.split (length xs) (length s.tasks)) ≤ lf.capacity * length s.tasks
      → length (policy.split (length xs) (length s.tasks)) ≤ length ids
      → (s' : Scheduler Q ℕ) × ((happen lf counts rounds latch es s
            >>= run_turns lf counts rounds ids)
          ≡ returns s')
        × (parallel_reduce policy (length s.tasks) (parts_run s'.ran) op init xs
            ≡ returns (foldl op init xs))
  parallel_reduce-on_scheduler op assoc policy init xs es ids s parts new c n q r e in_range workers
        space enough =
      let (s', ends, order) =
        happen-IsSchedule (policy.split (length xs) (length s.tasks)) es ids s parts new c n q r e
          in_range workers space enough in
      (
        s',
        ends,
        parallel_reduce-eq-foldl op assoc policy (length s.tasks) q (parts_run s'.ran) init xs
            order,
      )
