-- ===== src/Scheduler/Waiting.antt =====
-- `wait_for_task_from_pool` with a latch: what it takes when some queue has a task.
use native.Mathlib.Nat.{mod-lt}
use function_queue.Prelude.{
  sym, suc, ◌-◌, ◌++◌, range, range_from, leb, arith, ℕ, ◌+◌, ◌%◌, not, ◌<◌, ◌≡◌, ap, ◌∙◌, true,
  List, ◌∷◌, map, Option, none, some, length, if◌then◌else◌,
}
use function_queue.Outcome.{Outcome, returns, ◌>>=◌}
use function_queue.MessageQueue.{LockfreeQueue, Waited, returned, Round}
use function_queue.Scheduler.{
  Task, Scheduler, with_tasks, pop_at, pop_front_at, wait_for_task_from_pool,
  wait_for_task_of_worker,
}
use function_queue.QueueLoops.{for_others, for_range}
use function_queue.Scheduler.Search.{take_from, first, pop_at-Follows, for_indices-first}
use function_queue.Scheduler.Cycle.{
  others, for_indices, for_others-indices, for_range-indices, for_indices-append, afterwards, step,
}
use function_queue.Scheduler.Contents.{found, others-in_range}

module _ {ℓ κ} {Q : Type κ} {F : Type ℓ} (lf : LockfreeQueue Q (Task F)) where
  open lf use {contents}

  -- A running scheduler with a task in some queue: `wait_for_task_from_pool` returns without waiting,
  -- with the first task of the first queue that has one, in cyclic order from its own queue, and takes
  -- it off its queue; the other queues are left as they are.
  pub wait_for_task_from_pool-first :
      (rounds : List (Round Q)) (tsk : Task F) (id : ℕ) (s : Scheduler Q F)
      → s.continue ≡ true
      → s.num_threads ≡ length s.tasks
      → id < length s.tasks
      → (first take_from (id ∷ others id (length s.tasks)) (map contents s.tasks)).0 ≡ some tsk
      → (qs : List Q) × (wait_for_task_from_pool lf rounds id s
          ≡ returns (returned (some tsk), with_tasks s qs))
        × (map contents qs
            ≡ (first take_from (id ∷ others id (length s.tasks)) (map contents s.tasks)).1)
  unfolding wait_for_task_from_pool
  wait_for_task_from_pool-first rounds tsk id s c n h r =
      let (qs, ran, held, size) =
        for_indices-first lf (pop_at lf) take_from (pop_at-Follows lf)
          (id ∷ others id (length s.tasks)) s.tasks (others-in_range id (length s.tasks) h) in
      (
        qs,
        ap
              (λ b.
                if not b
                then returns (returned none, s)
                else pop_at lf id s.tasks >>= λ (r', q). elim r' [
                  | some x ↦ returns (returned (some x), with_tasks s q)
                  | none ↦ loop q >>= λ (r'', q'). elim r'' [
                    | some x ↦ returns (returned (some x), with_tasks s q')
                    | none ↦ waits q'
                  ]
                ])
              c
            ∙ found lf loop waits (λ x q. (returned (some x), with_tasks s q))
                (pop_at lf id s.tasks)
            ∙ ap
                (λ o. o >>= λ (r', q). elim r' [
                  | some x ↦ returns (returned (some x), with_tasks s q)
                  | none ↦ waits q
                ])
                (ap
                    (λ (f : List Q → Outcome (Option (Task F) × List Q)).
                      step (pop_at lf) id f s.tasks)
                    (λ i q. loop-indices q i)
                  ∙ ran
                  ∙ ap (λ a. returns (a, qs)) r),
        held,
      )
    where
      loop : List Q → Outcome (Option (Task F) × List Q)
      loop = for_others (pop_at lf) s.num_threads ((id + 1) % s.num_threads) id s.num_threads

      waits : List Q → Outcome (Waited (Option (Task F)) × Scheduler Q F)
      waits q = pop_front_at lf rounds id q >>= λ (w, q'). returns (w, with_tasks s q')

      loop-indices : (q : List Q) → loop q ≡ for_indices (pop_at lf) (others id (length s.tasks)) q
      loop-indices q =
          ap (λ k. for_others (pop_at lf) k ((id + 1) % k) id k q) n
          ∙ for_others-indices (pop_at lf) id (length s.tasks) h q

  -- What a worker does when it has found no task.
  abbrev pub worker_ends :
      List (Round Q)
      → ℕ
      → Scheduler Q F
      → List Q
      → Outcome (Waited (Option (Task F)) × Scheduler Q F)
  worker_ends rounds id s q =
      let own = id % length s.tasks in
      if leb (length s.tasks) id
      then (pop_at lf own q >>= λ (r', q'). returns (returned r', with_tasks s q'))
      else pop_front_at lf rounds own q >>= λ (w, q'). returns (w, with_tasks s q')

  -- The two loops of a worker are one search, in cyclic order from its own queue.
  pub wait_for_task_of_worker-indices :
      (rounds : List (Round Q)) (id : ℕ) (s : Scheduler Q F)
      → s.continue ≡ true
      → 0 < length s.tasks
      → wait_for_task_of_worker lf rounds id s ≡ (
          for_indices
            (pop_at lf)
            (id % length s.tasks ∷ others (id % length s.tasks) (length s.tasks))
            s.tasks
          >>= λ (r, q). elim r [
            | some x ↦ returns (returned (some x), with_tasks s q)
            | none ↦ worker_ends rounds id s q
          ])
  unfolding wait_for_task_of_worker
  wait_for_task_of_worker-indices rounds id s c some_queue =
      ap
        (λ b.
          if not b
          then returns (returned none, s)
          else for_range (pop_at lf) own (length s.tasks - own) s.tasks >>= λ (r', q). elim r' [
            | some x ↦ returns (returned (some x), with_tasks s q)
            | none ↦ for_range (pop_at lf) 0 own q >>= λ (r'', q'). elim r'' [
              | some x ↦ returns (returned (some x), with_tasks s q')
              | none ↦ worker_ends rounds id s q'
            ]
          ])
        c
      ∙ found lf (for_range (pop_at lf) 0 own) (worker_ends rounds id s)
          (λ x q. (returned (some x), with_tasks s q))
          (for_range (pop_at lf) own (length s.tasks - own) s.tasks)
      ∙ ap
          (λ o. o >>= λ (r', q). elim r' [
            | some x ↦ returns (returned (some x), with_tasks s q)
            | none ↦ worker_ends rounds id s q
          ])
          both
    where
      own : ℕ
      own = id % length s.tasks

      in_range : own < length s.tasks
      in_range = mod-lt id some_queue

      both :
          afterwards
            (pop_at lf)
            (for_range (pop_at lf) 0 own)
            (for_range (pop_at lf) own (length s.tasks - own) s.tasks)
          ≡ for_indices (pop_at lf) (own ∷ others own (length s.tasks)) s.tasks
      both =
          let one_more : length s.tasks - own ≡ suc (length s.tasks - (own + 1)) =
            omega (arith, in_range) in
          let next : suc own ≡ own + 1 = omega arith in
          ap
            (λ (f : List Q → Outcome (Option (Task F) × List Q)).
              afterwards (pop_at lf) f (for_range (pop_at lf) own (length s.tasks - own) s.tasks))
            (λ i q. for_range-indices (pop_at lf) 0 own q i)
          ∙ ap (afterwards (pop_at lf) (for_indices (pop_at lf) (range own)))
              (for_range-indices (pop_at lf) own (length s.tasks - own) s.tasks)
          ∙ sym (
              for_indices-append (pop_at lf) (range_from own (length s.tasks - own)) (range own)
                s.tasks)
          ∙ ap (λ k. for_indices (pop_at lf) (range_from own k ++ range own) s.tasks) one_more
          ∙ ap
              (λ k.
                for_indices (pop_at lf)
                  (own ∷ (range_from k (length s.tasks - (own + 1)) ++ range own)) s.tasks)
              next

  -- A running scheduler with a task in some queue: a worker returns without waiting, with the first
  -- task of the first queue that has one, in cyclic order from the queue of its id modulo the number of
  -- queues, and takes it off its queue; the other queues are left as they are.
  pub wait_for_task_of_worker-first :
      (rounds : List (Round Q)) (tsk : Task F) (id : ℕ) (s : Scheduler Q F)
      → s.continue ≡ true
      → 0 < length s.tasks
      → (first take_from
          (id % length s.tasks ∷ others (id % length s.tasks) (length s.tasks))
          (map contents s.tasks)).0
        ≡ some tsk
      → (qs : List Q) × (wait_for_task_of_worker lf rounds id s
          ≡ returns (returned (some tsk), with_tasks s qs))
        × (map contents qs
            ≡ (first take_from
                (id % length s.tasks ∷ others (id % length s.tasks) (length s.tasks))
                (map contents s.tasks)).1)
  wait_for_task_of_worker-first rounds tsk id s c some_queue r =
      let (qs, ran, held, size) =
        for_indices-first lf (pop_at lf) take_from (pop_at-Follows lf)
          (id % length s.tasks ∷ others (id % length s.tasks) (length s.tasks)) s.tasks
          (others-in_range (id % length s.tasks) (length s.tasks) (mod-lt id some_queue)) in
      (
        qs,
        wait_for_task_of_worker-indices rounds id s c some_queue
            ∙ ap
                (λ o. o >>= λ (r', q). elim r' [
                  | some x ↦ returns (returned (some x), with_tasks s q)
                  | none ↦ worker_ends rounds id s q
                ])
                (ran ∙ ap (λ a. returns (a, qs)) r),
        held,
      )
