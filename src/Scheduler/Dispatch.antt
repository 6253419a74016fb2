-- ===== src/Scheduler/Dispatch.antt =====
-- Tasks that are added while workers take turns: `add_task` of include/daw/fs/task_scheduler.h sends
-- each to the next queue, and every task is run once.
use mathlib.Core.List.Permᴰ
use native.Mathlib.Nat.{mod-lt}
use function_queue.Prelude.{
  ℕ, ◌+◌, ◌*◌, ◌≤◌, ◌<◌, ◌≡◌, refl, sym, ap, subst, ◌∙◌, Bool, true, false, List, [], ◌∷◌, ◌++◌,
  map, some, arith, length, All, All-perm, Permᴰ, append-nil, flatten, length-perm, length-map,
  length-append,
}
use function_queue.Outcome.{Outcome, returns, throws, undefined, ◌>>=◌}
use function_queue.MessageQueue.{LockfreeQueue, Waited, returned, waiting, Round}
use function_queue.Scheduler.{
  Task, Scheduler, is_ready, with_tasks, get_task_id, send_task, run_next_task,
}
use function_queue.Scheduler.Cycle.{others}
use function_queue.Scheduler.Search.{push_to, first}
use function_queue.Scheduler.Contents.{send_task-first}
use function_queue.Scheduler.Pending.{first_push-perm}
use function_queue.Scheduler.Room.{first_push-room, first_push-length}
use function_queue.Scheduler.Running.{pending, Runnable, turn, run_turns, run_turns_complete}

-- `task_t( func )`; its latch is a new one, whose count is 1.
abbrev pub make_task {ℓ} : {F : Type ℓ} → ℕ → F → Task F
make_task latch func = record { function = some func; latch = some latch }

-- What threads do with the scheduler: one adds a task, or a worker calls `run_next_task`.
pub data Event {ℓ} (F : Type ℓ) : Type ℓ where
  adds : F → Event F
  takes : ℕ → Event F

module _ {ℓ} {F : Type ℓ} where
  -- The functions that are added, in this order.
  abbrev pub added : List (Event F) → List F
  added [] = []
  added (adds f ∷ es) = f ∷ added es
  added (takes id ∷ es) = added es

  -- The workers have queues.
  abbrev pub InRange : ℕ → List (Event F) → Type 0
  InRange n [] = Unit
  InRange n (adds f ∷ es) = InRange n es
  InRange n (takes id ∷ es) = (id < n) × InRange n es

module _ {ℓ κ} {Q : Type κ} {F : Type ℓ} (lf : LockfreeQueue Q (Task F)) (counts : ℕ → ℕ)
    (rounds : List (Round Q)) (latch : ℕ) where
  open lf use {capacity, contents}

  -- `add_task( task )`
  unfoldable pub add_task : F → Scheduler Q F → Outcome (Waited Bool × Scheduler Q F)
  unfolding get_task_id
  add_task func s =
      let (id, s') = get_task_id s in send_task lf rounds (some (make_task latch func)) id s'

  -- Who adds a task that is refused aborts.
  unfoldable pub happen : List (Event F) → Scheduler Q F → Outcome (Scheduler Q F)
  unfolding add_task
  happen [] s = returns s
  happen (adds func ∷ es) s = add_task func s >>= λ (w, s'). elim w [
    | returned accepted ↦ elim accepted [ true ↦ happen es s' | false ↦ throws ]
    | waiting ↦ undefined
  ]
  happen (takes id ∷ es) s = run_next_task lf counts rounds id s >>= λ (w, s'). happen es s'

  abbrev new_task : F → Task F
  new_task func = make_task latch func

  -- A scheduler that runs, with a thread for each queue.
  pub record Runs (s : Scheduler Q F) : Type (ℓ ⊔ κ) where
    pub continues : s.continue ≡ true
    pub threads : s.num_threads ≡ length s.tasks
    pub some_queue : 0 < length s.tasks
    pub runnable : All (Runnable lf counts rounds) (pending lf counts rounds s)

  add_task-Runs :
      (func : F) (s : Scheduler Q F)
      → counts latch ≡ 1
      → Runs s
      → length (pending lf counts rounds s) < capacity * length s.tasks
      → (s' : Scheduler Q F) × (add_task func s ≡ returns (returned true, s'))
        × Runs s'
        × (s'.ran ≡ s.ran)
        × Permᴰ (pending lf counts rounds s') (new_task func ∷ pending lf counts rounds s)
        × (length s'.tasks ≡ length s.tasks)
  unfolding add_task get_task_id with_tasks is_ready
  add_task-Runs func s new h space =
      let (id, s₁) = get_task_id s in
      let n = length s.tasks in
      let cs = map contents s.tasks in
      let wide : length cs ≡ n = length-map contents s.tasks in
      let ms = id ∷ others id n in
      let tsk = new_task func in
      let room : (first (push_to capacity tsk) ms cs).0 ≡ some tt =
        subst (λ k. (first (push_to capacity tsk) (id ∷ others id k) cs).0 ≡ some tt) wide
          (first_push-room capacity tsk id cs
            (subst (λ k. length (flatten cs) < capacity * k) (sym wide) space)) in
      let (qs, sent, held) =
        send_task-first lf rounds tsk id s₁ h.continues h.threads (mod-lt s.task_count h.some_queue)
          room in
      let more : Permᴰ (flatten (map contents qs)) (tsk ∷ flatten cs) =
        subst (λ l. Permᴰ (flatten l) (tsk ∷ flatten cs)) (sym held)
          (first_push-perm capacity tsk ms cs room) in
      let same : length qs ≡ n =
        sym (length-map contents qs)
        ∙ ap length held
        ∙ first_push-length capacity tsk ms cs room
        ∙ wide in
      (
        with_tasks s₁ qs,
        sent,
        record {
          continues = h.continues;
          threads = h.threads ∙ sym same;
          some_queue = subst (λ k. 0 < k) (sym same) h.some_queue;
          runnable =
              All-perm (Runnable lf counts rounds) (Permᴰ.symm more)
                ((func, refl, ground (arith, new)), h.runnable);
        },
        refl,
        more,
        same,
      )

  -- What has been added and not run is in the queues.
  happen-Runs :
      (es : List (Event F)) (s : Scheduler Q F)
      → counts latch ≡ 1
      → Runs s
      → InRange (length s.tasks) es
      → length (pending lf counts rounds s) + length (added es) ≤ capacity * length s.tasks
      → (s' : Scheduler Q F) × (happen es s ≡ returns s')
        × Runs s'
        × Permᴰ
            (s'.ran ++ pending lf counts rounds s')
            ((s.ran ++ pending lf counts rounds s) ++ map new_task (added es))
        × (length s'.tasks ≡ length s.tasks)
  unfolding happen
  happen-Runs [] s new h ids space = (
    s,
    refl,
    h,
    subst (Permᴰ (s.ran ++ pending lf counts rounds s))
        (sym (append-nil (s.ran ++ pending lf counts rounds s)))
        (Permᴰ.refl (s.ran ++ pending lf counts rounds s)),
    refl,
  )
  happen-Runs (adds func ∷ es) s new h ids space =
      let tsk = new_task func in
      let old = pending lf counts rounds s in
      let rest = map new_task (added es) in
      let (s₁, sent, h₁, ran, more, same) = add_task-Runs func s new h (omega arith) in
      let (s₂, went, h₂, kept, same₂) =
        happen-Runs es s₁ new h₁ (subst (λ n. InRange n es) (sym same) ids) (
          subst (λ n. length (pending lf counts rounds s₁) + length (added es) ≤ capacity * n)
            (sym same) (omega (arith, length-perm more))) in
      let now : Permᴰ (s₁.ran ++ pending lf counts rounds s₁) (tsk ∷ (s.ran ++ old)) =
        subst (λ r. Permᴰ (r ++ pending lf counts rounds s₁) (tsk ∷ (s.ran ++ old))) (sym ran)
          (Permᴰ.trans (Permᴰ.append_left s.ran more) (Permᴰ.middle tsk s.ran old)) in
      (
        s₂,
        ap
              (λ o. o >>= λ (w, s'). elim w [
                | returned accepted ↦ elim accepted [ true ↦ happen es s' | false ↦ throws ]
                | waiting ↦ undefined
              ])
              sent
            ∙ went,
        h₂,
        Permᴰ.trans kept (
            Permᴰ.trans (Permᴰ.append_right rest now)
              (Permᴰ.symm (Permᴰ.middle tsk (s.ran ++ old) rest))),
        same₂ ∙ same,
      )
  happen-Runs (takes id ∷ es) s new h (l, ids) space =
      let (w, s₁, ends, t) = turn lf counts rounds id s h.continues l h.runnable in
      let (s₂, went, h₂, kept, same₂) =
        happen-Runs es s₁ new
          (record {
            continues = t.continues;
            threads = t.same_threads ∙ h.threads ∙ sym t.same_queues;
            some_queue = subst (λ k. 0 < k) (sym t.same_queues) h.some_queue;
            runnable = t.still_run;
          })
          (subst (λ n. InRange n es) (sym t.same_queues) ids)
          (subst (λ n. length (pending lf counts rounds s₁) + length (added es) ≤ capacity * n)
            (sym t.same_queues) (omega (arith, t.one_less))) in
      (
        s₂,
        ap (λ o. o >>= λ (_, s'). happen es s') ends ∙ went,
        h₂,
        Permᴰ.trans kept (Permᴰ.append_right (map new_task (added es)) t.conserved),
        same₂ ∙ t.same_queues,
      )

  -- Threads add tasks to a running scheduler with empty queues, whose `m_num_threads` is the number of
  -- the queues, as it is until a call of `wait_for_scope` adds a thread to it, while workers take turns, in any order,
  -- and then workers take at least as many turns as tasks were added. If no more tasks were added than
  -- the queues have room for together, no call waits or is refused, the queues are empty again, and
  -- every task that was added has been run exactly once.
  pub happen_complete :
      (es : List (Event F)) (ids : List ℕ) (s : Scheduler Q F)
      → counts latch ≡ 1
      → s.continue ≡ true
      → s.num_threads ≡ length s.tasks
      → 0 < length s.tasks
      → (s.ran ≡ [])
      → pending lf counts rounds s ≡ []
      → InRange (length s.tasks) es
      → All (λ id. id < length s.tasks) ids
      → length (added es) ≤ capacity * length s.tasks
      → length (added es) ≤ length ids
      → (s' : Scheduler Q F) × ((happen es s >>= run_turns lf counts rounds ids) ≡ returns s')
        × (pending lf counts rounds s' ≡ [])
        × Permᴰ s'.ran (map new_task (added es))
  happen_complete es ids s new c n q r e in_range workers space enough =
      let start : Runs s = record {
        continues = c;
        threads = n;
        some_queue = q;
        runnable = subst (All (Runnable lf counts rounds)) (sym e) tt;
      } in
      let (s₁, went, h₁, kept, same) =
        happen-Runs es s new start in_range (omega (arith, ap length e, space)) in
      let all : Permᴰ (s₁.ran ++ pending lf counts rounds s₁) (map new_task (added es)) =
        subst (λ l. Permᴰ (s₁.ran ++ pending lf counts rounds s₁) (l ++ map new_task (added es)))
          (ap (λ l. l ++ pending lf counts rounds s) r ∙ e) kept in
      let (s₂, ran, empty, done) =
        run_turns_complete lf counts rounds ids s₁ h₁.continues
          (subst (λ k. All (λ id. id < k) ids) (sym same) workers) h₁.runnable
          (omega (
            arith,
            length-perm all,
            length-append s₁.ran (pending lf counts rounds s₁),
            length-map new_task (added es),
            enough,
          )) in
      (s₂, ap (λ o. o >>= run_turns lf counts rounds ids) went ∙ ran, empty, Permᴰ.trans done all)
