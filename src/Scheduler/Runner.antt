-- ===== src/Scheduler/Runner.antt =====
-- `task_runner( id )` and `task_runner( id, sem )` of src/task_scheduler.cpp: the loops of workers.
use mathlib.Core.List.Permᴰ
use native.Mathlib.Nat.{mod-lt}
use function_queue.Prelude.{
  ℕ, zero, suc, ◌%◌, ◌≤◌, ◌<◌, ◌≡◌, sym, ap, subst, ◌∙◌, Bool, true, false, List, [], ◌∷◌, ◌++◌,
  map, none, some, arith, length, leb, if◌then◌else◌, All, All-perm, Permᴰ, append_assoc,
  append-nil, flatten, length-perm, length-map, Option-cases, inl, inr,
}
use function_queue.Outcome.{Outcome, returns, ◌>>=◌}
use function_queue.MessageQueue.{LockfreeQueue, Waited, returned, waiting, Round}
use function_queue.Scheduler.{
  Task, Scheduler, with_tasks, call_task, pop_at, pop_front_at, wait_for_task_of_worker,
  wait_for_task_from_pool, run_task,
}
use function_queue.Scheduler.Cycle.{others}
use function_queue.Scheduler.Search.{
  take_from, first, first-none, first-none_same, for_indices-first, pop_at-Follows,
}
use function_queue.Scheduler.Contents.{others-in_range}
use function_queue.Scheduler.Pending.{first_take-perm, first_take-none, take_from-keep}
use function_queue.Scheduler.Room.{first_take-length}
use function_queue.Scheduler.Waiting.{
  wait_for_task_of_worker-first, wait_for_task_of_worker-indices, worker_ends,
}
use function_queue.Scheduler.Running.{pending, Runnable, run_task-call}

module _ {ℓ κ} {Q : Type κ} {F : Type ℓ} (lf : LockfreeQueue Q (Task F)) (counts : ℕ → ℕ)
    (rounds : List (Round Q)) where
  open lf use {contents}

  -- `while( keep_going )`, as often as there is fuel; `waiting`: the worker has not left its loop.
  unfoldable pub task_runner :
      ℕ → Bool → ℕ → Scheduler Q F → Outcome (Waited (Unit {0}) × Scheduler Q F)
  task_runner zero keep_going id s = returns (waiting, s)
  task_runner (suc fuel) false id s = returns (returned tt, s)
  task_runner (suc fuel) true id s = wait_for_task_of_worker lf rounds id s >>= λ (w, s₁). elim w [
    | waiting ↦ returns (waiting, s₁)
    | returned tsk ↦ elim s₁.continue [
      | false ↦ returns (returned tt, s₁)
      | true ↦ elim tsk [
        | some t ↦ run_task lf counts rounds (some t) s₁ >>= λ (w', s₂). elim w' [
          | waiting ↦ returns (waiting, s₂)
          | returned _ ↦ task_runner fuel true id s₂
        ]
        | none ↦ elim (leb (length s₁.tasks) id) [
          | true ↦ returns (returned tt, s₁)
          | false ↦ task_runner fuel true id s₁
        ]
      ]
    ]
  ]

  -- The loop of `task_runner( id, sem )`. It tests whether there is a latch, not whether it is open, and
  -- there is one.
  unfoldable pub task_runner_with_latch :
      ℕ → Bool → ℕ → Scheduler Q F → Outcome (Waited (Unit {0}) × Scheduler Q F)
  task_runner_with_latch zero keep_going id s = returns (waiting, s)
  task_runner_with_latch (suc fuel) false id s = returns (returned tt, s)
  task_runner_with_latch (suc fuel) true id s =
      wait_for_task_from_pool lf rounds id s >>= λ (w, s₁). elim w [
        | waiting ↦ returns (waiting, s₁)
        | returned tsk ↦ elim s₁.continue [
          | false ↦ task_runner_with_latch fuel false id s₁
          | true ↦ elim tsk [
            | some t ↦ run_task lf counts rounds (some t) s₁ >>= λ (w', s₂). elim w' [
              | waiting ↦ returns (waiting, s₂)
              | returned _ ↦ task_runner_with_latch fuel true id s₂
            ]
            | none ↦ task_runner_with_latch fuel true id s₁
          ]
        ]
      ]

  -- A worker whose id is not that of a queue gives up when no task is in a queue.
  no_task :
      (id : ℕ) (s : Scheduler Q F)
      → s.continue ≡ true
      → 0 < length s.tasks
      → length s.tasks ≤ id
      → (first take_from
          (id % length s.tasks ∷ others (id % length s.tasks) (length s.tasks))
          (map contents s.tasks)).0
        ≡ none
      → (qs : List Q) × (wait_for_task_of_worker lf rounds id s
          ≡ returns (returned none, with_tasks s qs))
        × (pending lf counts rounds s ≡ [])
        × (flatten (map contents qs) ≡ [])
        × (length qs ≡ length s.tasks)
  no_task id s c q far e =
      let own = id % length s.tasks in
      let cs = map contents s.tasks in
      let ms = own ∷ others own (length s.tasks) in
      let wide : length cs ≡ length s.tasks = length-map contents s.tasks in
      let (qs, searched, held, same) =
        for_indices-first lf (pop_at lf) take_from (pop_at-Follows lf) ms s.tasks
          (others-in_range own (length s.tasks) (mod-lt id q)) in
      let (empty, _) =
        first_take-none own cs
          (subst (λ n. (first take_from (own ∷ others own n) cs).0 ≡ none) (sym wide) e) in
      let unchanged : map contents qs ≡ cs =
        held ∙ first-none_same take_from take_from-keep ms cs e in
      let over : leb (length s.tasks) id ≡ true = ground (arith, far) in
      let (qs', popped, held', same') =
        pop_at-Follows lf own qs (subst (λ n. own < n) (sym same) (mod-lt id q)) in
      let nothing : (take_from own (map contents qs)).0 ≡ none =
        ap (λ l. (take_from own l).0) unchanged ∙ (first-none take_from take_from-keep ms cs e).0 in
      (
        qs',
        wait_for_task_of_worker-indices lf rounds id s c q
            ∙ ap
                (λ o. o >>= λ (r, q). elim r [
                  | some x ↦ returns (returned (some x), with_tasks s q)
                  | none ↦ worker_ends lf rounds id s q
                ])
                (searched ∙ ap (λ r. returns (r, qs)) e)
            ∙ ap
                (λ b.
                  if b
                  then (pop_at lf own qs >>= λ (r', q'). returns (returned r', with_tasks s q'))
                  else pop_front_at lf rounds own qs >>= λ (w, q'). returns (w, with_tasks s q'))
                over
            ∙ ap (λ o. o >>= λ (r', q'). returns (returned r', with_tasks s q'))
                (popped ∙ ap (λ r. returns (r, qs')) nothing),
        empty,
        ap flatten (held' ∙ take_from-keep own (map contents qs) nothing ∙ unchanged) ∙ empty,
        same' ∙ same,
      )

  -- A thread of a running scheduler whose id is not that of a queue, as `wait_for_scope` adds one when
  -- every queue has a task: its loop runs every task that waits in the queues, exactly once, and then it ends, if all of them
  -- have a function and a latch that is not open and no other thread comes between.
  pub task_runner_drains :
      (fuel id : ℕ) (s : Scheduler Q F)
      → s.continue ≡ true
      → 0 < length s.tasks
      → length s.tasks ≤ id
      → All (Runnable lf counts rounds) (pending lf counts rounds s)
      → length (pending lf counts rounds s) < fuel
      → (s' : Scheduler Q F) × (task_runner fuel true id s ≡ returns (returned tt, s'))
        × (pending lf counts rounds s' ≡ [])
        × Permᴰ s'.ran (s.ran ++ pending lf counts rounds s)
  unfolding task_runner with_tasks call_task
  task_runner_drains zero id s c q far runs enough = absurd (omega arith)
  task_runner_drains (suc fuel) id s c q far runs enough =
      elim (Option-cases (first take_from ms cs).0) [
        | inl e ↦
            let (qs, took, empty, left, same) = no_task id s c q far e in
            (
              with_tasks s qs,
              ground (arith, took, c, far, same),
              left,
              subst (λ l. Permᴰ s.ran (s.ran ++ l)) (sym empty)
                  (subst (Permᴰ s.ran) (sym (append-nil s.ran)) (Permᴰ.refl s.ran)),
            )
        | inr (tsk, e) ↦
            let (qs, took, held) = wait_for_task_of_worker-first lf rounds tsk id s c q e in
            let same : length qs ≡ length s.tasks =
              sym (length-map contents qs)
              ∙ ap length held
              ∙ first_take-length ms cs tsk e
              ∙ length-map contents s.tasks in
            let taken : Permᴰ (tsk ∷ flatten (map contents qs)) (pending lf counts rounds s) =
              subst (λ l. Permᴰ (tsk ∷ flatten l) (pending lf counts rounds s)) (sym held)
                (first_take-perm ms cs tsk e) in
            let (run_it, run_rest) = All-perm (Runnable lf counts rounds) (Permᴰ.symm taken) runs in
            let s₁ = with_tasks s qs in
            let call = run_task-call lf counts rounds tsk s₁ c run_it in
            let (s', rest, empty, done) =
              task_runner_drains fuel id (call_task tsk s₁) c (subst (λ k. 0 < k) (sym same) q)
                (subst (λ k. k ≤ id) (sym same) far) run_rest (omega (arith, length-perm taken)) in
            (
              s',
              ground (arith, took, c, call, rest),
              empty,
              Permᴰ.trans done (
                  subst (λ l. Permᴰ l (s.ran ++ pending lf counts rounds s))
                    (sym (append_assoc s.ran (tsk ∷ []) (flatten (map contents qs))))
                    (Permᴰ.append_left s.ran taken)),
            )
      ]
    where
      cs : List (List (Task F))
      cs = map contents s.tasks

      ms : List ℕ
      ms = id % length s.tasks ∷ others (id % length s.tasks) (length s.tasks)
