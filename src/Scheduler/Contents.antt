-- ===== src/Scheduler/Contents.antt =====
-- What sending and taking a task do to the contents of the queues: the same search on lists of tasks.
use function_queue.Prelude.{
  All-append, ℕ, zero, suc, ◌+◌, ◌-◌, ◌%◌, not, ◌≤◌, ◌<◌, ◌≡◌, refl, sym, ap, ◌∙◌, true, List, ◌∷◌,
  ◌++◌, map, Option, none, some, arith, length, All, if◌then◌else◌, range_from, range,
}
use function_queue.Outcome.{Outcome, returns, throws, undefined, ◌>>=◌}
use function_queue.MessageQueue.{LockfreeQueue, returned, Round}
use function_queue.Scheduler.{
  Task, Scheduler, with_tasks, push_at, pop_at, push_back_at, send_task, next_task,
}
use function_queue.QueueLoops.{for_others, for_range}
use function_queue.Scheduler.Search.{
  push_to, take_from, first, push_at-Follows, pop_at-Follows, for_indices-first,
}
use function_queue.Scheduler.Cycle.{
  others, for_indices, for_range-indices, for_others-indices, for_indices-append, afterwards, step,
}

All-range_from : (a k n : ℕ) → a + k ≤ n → All (λ m. m < n) (range_from a k)
All-range_from a zero n h = tt
All-range_from a (suc k) n h = (omega arith, All-range_from (suc a) k n (omega arith))

pub others-in_range : (id n : ℕ) → id < n → All (λ m. m < n) (id ∷ others id n)
others-in_range id n h = (
  h,
  All-append (λ m. m < n) (range_from (id + 1) (n - (id + 1))) (range id)
      (All-range_from (id + 1) (n - (id + 1)) n (omega arith))
      (All-range_from 0 id n (omega arith)),
)

module _ {ℓ κ} {Q : Type κ} {F : Type ℓ} (lf : LockfreeQueue Q (Task F)) where
  open lf use {capacity, contents}

  next_task-indices :
      (id : ℕ) (qs : List Q)
      → next_task lf id qs ≡ for_indices (pop_at lf) (id ∷ others id (length qs)) qs
  unfolding next_task
  next_task-indices id qs =
      ap (λ (f : List Q → Outcome (Option (Task F) × List Q)). step (pop_at lf) id f qs)
        (λ i qs'. both qs' i)
    where
      behind : List ℕ
      behind = range_from (id + 1) (length qs - (id + 1))

      both :
          (qs' : List Q)
          → afterwards
              (pop_at lf)
              (for_range (pop_at lf) 0 id)
              (for_range (pop_at lf) (id + 1) (length qs - (id + 1)) qs')
            ≡ for_indices (pop_at lf) (behind ++ range id) qs'
      both qs' =
          ap
            (λ (f : List Q → Outcome (Option (Task F) × List Q)).
              afterwards (pop_at lf) f (for_range (pop_at lf) (id + 1) (length qs - (id + 1)) qs'))
            (λ i q. for_range-indices (pop_at lf) 0 id q i)
          ∙ ap (afterwards (pop_at lf) (for_indices (pop_at lf) (range id)))
              (for_range-indices (pop_at lf) (id + 1) (length qs - (id + 1)) qs')
          ∙ sym (for_indices-append (pop_at lf) behind (range id) qs')

  -- `run_next_task` finds the first task of the first queue that has one, in cyclic order from its own
  -- queue, and takes it off its queue; the other queues are left as they are. If no queue has a task,
  -- it finds none.
  pub next_task-first :
      (id : ℕ) (qs : List Q)
      → id < length qs
      → (qs' : List Q) × (next_task lf id qs
          ≡ returns ((first take_from (id ∷ others id (length qs)) (map contents qs)).0, qs'))
        × (map contents qs' ≡ (first take_from (id ∷ others id (length qs)) (map contents qs)).1)
        × (length qs' ≡ length qs)
  next_task-first id qs h =
      let (qs', ran, held, size) =
        for_indices-first lf (pop_at lf) take_from (pop_at-Follows lf) (id ∷ others id (length qs))
          qs (others-in_range id (length qs) h) in
      (qs', next_task-indices id qs ∙ ran, held, size)

  -- The branches of an operation that looks at its own queue, then at the others, then waits.
  pub found {μ ν} :
      {R : Type ν} {X : Type μ} (f : List Q → Outcome (Option R × List Q)) (w : List Q → Outcome X)
      (d : R → List Q → X) (o : Outcome (Option R × List Q))
      → (o >>= λ (r, q). elim r [
        | some x ↦ returns (d x q)
        | none ↦ f q >>= λ (r', q'). elim r' [ some x ↦ returns (d x q') | none ↦ w q' ]
      ])
        ≡ ((o >>= λ (r, q). elim r [ none ↦ f q | some x ↦ returns (some x, q) ]) >>= λ (r, q).
            elim r [ some x ↦ returns (d x q) | none ↦ w q ])
  found f w d (returns (none, q)) = refl
  found f w d (returns (some x, q)) = refl
  found f w d throws = refl
  found f w d undefined = refl

  -- A running scheduler whose `m_num_threads` is the number of its queues, as it is until a call of
  -- `wait_for_scope` adds a thread to it, and which has room for a task in some queue. Sent to one of
  -- the queues, `send_task` returns true without waiting, and the task goes to the end of the first queue with room, in cyclic order from the given
  -- one; the other queues are left as they are.
  pub send_task-first :
      (rounds : List (Round Q)) (tsk : Task F) (id : ℕ) (s : Scheduler Q F)
      → s.continue ≡ true
      → s.num_threads ≡ length s.tasks
      → id < length s.tasks
      → (first (push_to capacity tsk) (id ∷ others id (length s.tasks)) (map contents s.tasks)).0
        ≡ some tt
      → (qs : List Q) × (send_task lf rounds (some tsk) id s
          ≡ returns (returned true, with_tasks s qs))
        × (map contents qs
            ≡ (first
                (push_to capacity tsk)
                (id ∷ others id (length s.tasks))
                (map contents s.tasks)).1)
  unfolding send_task
  send_task-first rounds tsk id s c n h r =
      let (qs, ran, held, size) =
        for_indices-first lf (push_at lf tsk) (push_to capacity tsk) (push_at-Follows lf tsk)
          (id ∷ others id (length s.tasks)) s.tasks (others-in_range id (length s.tasks) h) in
      (
        qs,
        ap
              (λ b.
                if not b
                then returns (returned true, s)
                else push_at lf tsk id s.tasks >>= λ (r, q). elim r [
                  | some _ ↦ returns (returned true, with_tasks s q)
                  | none ↦ loop q >>= λ (r', q'). elim r' [
                    | some _ ↦ returns (returned true, with_tasks s q')
                    | none ↦ push_back_at lf rounds tsk id q' >>= λ (w, q'').
                        returns (w, with_tasks s q'')
                  ]
                ])
              c
            ∙ found loop
                (λ q. push_back_at lf rounds tsk id q >>= λ (w, q'). returns (w, with_tasks s q'))
                (λ _ q. (returned true, with_tasks s q)) (push_at lf tsk id s.tasks)
            ∙ ap
                (λ o. o >>= λ (r, q). elim r [
                  | some _ ↦ returns (returned true, with_tasks s q)
                  | none ↦
                      push_back_at lf rounds tsk id q >>= λ (w, q'). returns (w, with_tasks s q')
                ])
                (ap
                    (λ (f : List Q → Outcome (Option Unit × List Q)).
                      step (push_at lf tsk) id f s.tasks)
                    (λ i q. loop-indices q i)
                  ∙ ran
                  ∙ ap (λ a. returns (a, qs)) r),
        held,
      )
    where
      loop : List Q → Outcome (Option (Unit {0}) × List Q)
      loop = for_others (push_at lf tsk) s.num_threads ((id + 1) % s.num_threads) id s.num_threads

      loop-indices :
          (q : List Q) → loop q ≡ for_indices (push_at lf tsk) (others id (length s.tasks)) q
      loop-indices q =
          ap (λ k. for_others (push_at lf tsk) k ((id + 1) % k) id k q) n
          ∙ for_others-indices (push_at lf tsk) id (length s.tasks) h q
