-- ===== src/Scheduler/Wrapper.antt =====
-- `task_wrapper` of include/daw/fs/task_scheduler.h, which stands around each task that is added: behind
-- the task it goes on with `run_next_task`, and so the tasks that it finds are called from within it. The
-- functions of the tasks are taken to return: one that throws leaves its wrapper at once.
use mathlib.Core.List.Permᴰ
use function_queue.Prelude.{
  ℕ, zero, suc, ◌<◌, ◌≡◌, sym, ap, subst, ◌∙◌, true, false, not, List, [], ◌∷◌, ◌++◌, map, none,
  some, arith, length, leb, if◌then◌else◌, All, All-perm, Permᴰ, append_assoc, append-nil, flatten,
  length-perm, inl, inr,
}
use function_queue.Outcome.{Outcome, returns, ◌>>=◌}
use function_queue.MessageQueue.{LockfreeQueue, Waited, returned, waiting, Round}
use function_queue.Scheduler.{
  Task, Scheduler, is_ready, with_tasks, call_task, get_task_id, send_task, next_task,
}
use function_queue.Scheduler.Running.{pending, next_task-cases}

-- A function with the id of the queue that it was added to.
pub record Wrapped {ℓ} (F : Type ℓ) : Type ℓ where
  pub id : ℕ
  pub task : F

abbrev pub deeper : ℕ → ℕ → ℕ
deeper m n = if leb m n then n else m

module _ {ℓ κ} {Q : Type κ} {F : Type ℓ} (lf : LockfreeQueue Q (Task (Wrapped F))) (counts : ℕ → ℕ)
    (rounds : List (Round Q)) where
  open lf use {contents}

  -- `run_task` on a task with its wrapper: behind the function, `drain` goes on with the id of the
  -- wrapper. The number is how many tasks were called within one another.
  unfoldable pub run_wrapped_task :
      (ℕ → Scheduler Q (Wrapped F) → Outcome (Waited ℕ × Scheduler Q (Wrapped F)))
      → Task (Wrapped F)
      → Scheduler Q (Wrapped F)
      → Outcome (Waited ℕ × Scheduler Q (Wrapped F))
  unfolding send_task call_task get_task_id is_ready
  run_wrapped_task drain tsk s = elim tsk.function [
    | none ↦ returns (returned 0, s)
    | some f ↦
        if not s.continue
        then returns (returned 0, s)
        else if is_ready counts tsk
        then (let (id, s') = get_task_id s in
            send_task lf rounds (some tsk) id s' >>= λ (w, s'').
            returns (elim w [ waiting ↦ waiting | returned _ ↦ returned 0 ], s''))
        else drain f.id (call_task tsk s) >>= λ (w, s').
            returns (elim w [ waiting ↦ waiting | returned depth ↦ returned (suc depth) ], s')
  ]

  -- The loop of `task_wrapper::operator( )`, with `run_next_task( id )` and `run_task` written out, as
  -- often and as deep as there is fuel. It gives how many tasks were called within one another;
  -- `waiting`: it has not come back. The scheduler lives while it runs.
  unfoldable pub run_wrapped_tasks :
      ℕ → ℕ → Scheduler Q (Wrapped F) → Outcome (Waited ℕ × Scheduler Q (Wrapped F))
  unfolding run_wrapped_task next_task with_tasks
  run_wrapped_tasks zero id s = returns (waiting, s)
  run_wrapped_tasks (suc fuel) id s = elim s.continue [
    | false ↦ returns (returned 0, s)
    | true ↦ next_task lf id s.tasks >>= λ (r, qs). elim r [
      | none ↦ returns (returned 0, with_tasks s qs)
      | some tsk ↦ run_wrapped_task (run_wrapped_tasks fuel) tsk (with_tasks s qs) >>= λ (w, s₁).
          elim w [
            | waiting ↦ returns (waiting, s₁)
            | returned depth ↦ run_wrapped_tasks fuel id s₁ >>= λ (w', s₂). elim w' [
              | waiting ↦ returns (waiting, s₂)
              | returned depth' ↦ returns (returned (deeper depth depth'), s₂)
            ]
          ]
    ]
  ]

  -- A task that is called, with the id of a queue.
  abbrev pub Callable : ℕ → Task (Wrapped F) → Type ℓ
  Callable n tsk =
      (f : Wrapped F) × (tsk.function ≡ some f) × (is_ready counts tsk ≡ false) × (f.id < n)

  run_wrapped_task-call :
      (drain : ℕ → Scheduler Q (Wrapped F) → Outcome (Waited ℕ × Scheduler Q (Wrapped F)))
      (depth : ℕ) (tsk : Task (Wrapped F)) (f : Wrapped F) (s s' : Scheduler Q (Wrapped F))
      → s.continue ≡ true
      → tsk.function ≡ some f
      → is_ready counts tsk ≡ false
      → drain f.id (call_task tsk s) ≡ returns (returned depth, s')
      → run_wrapped_task drain tsk s ≡ returns (returned (suc depth), s')
  unfolding run_wrapped_task
  run_wrapped_task-call drain depth tsk f s s' c has closed e = ground (arith, c, has, closed, e)

  run_wrapped_tasks-found :
      (fuel id depth depth' : ℕ) (tsk : Task (Wrapped F)) (qs : List Q)
      (s s' s'' : Scheduler Q (Wrapped F))
      → s.continue ≡ true
      → next_task lf id s.tasks ≡ returns (some tsk, qs)
      → run_wrapped_task (run_wrapped_tasks fuel) tsk (with_tasks s qs)
        ≡ returns (returned depth, s')
      → run_wrapped_tasks fuel id s' ≡ returns (returned depth', s'')
      → run_wrapped_tasks (suc fuel) id s ≡ returns (returned (deeper depth depth'), s'')
  unfolding run_wrapped_tasks
  run_wrapped_tasks-found fuel id depth depth' tsk qs s s' s'' c found call rest =
      ground (arith, c, found, call, rest)

  -- The tasks that were run, when the calls within the first and the loop behind it have ended.
  ran-perm :
      (s s' s'' : Scheduler Q (Wrapped F)) (qs : List Q) (tsk : Task (Wrapped F))
      → Permᴰ (tsk ∷ flatten (map contents qs)) (pending lf counts rounds s)
      → Permᴰ s'.ran ((s.ran ++ tsk ∷ []) ++ flatten (map contents qs))
      → pending lf counts rounds s' ≡ []
      → Permᴰ s''.ran (s'.ran ++ pending lf counts rounds s')
      → Permᴰ s''.ran (s.ran ++ pending lf counts rounds s)
  ran-perm s s' s'' qs tsk taken done empty done' =
      Permᴰ.trans (subst (Permᴰ s''.ran) (ap (λ l. s'.ran ++ l) empty ∙ append-nil s'.ran) done') (
        Permᴰ.trans done (
          subst (λ l. Permᴰ l (s.ran ++ pending lf counts rounds s))
            (sym (append_assoc s.ran (tsk ∷ []) (flatten (map contents qs))))
            (Permᴰ.append_left s.ran taken)))

  -- A worker that comes to the loop of a wrapper in a running scheduler, while tasks wait in the queues,
  -- all of them with a function, the id of a queue and a latch that is not open, and no other thread
  -- comes between: with more fuel than tasks the loop ends, with the queues empty and each of the tasks
  -- run once, and every one of them was called from within the one before it, so that the calls were
  -- nested as deep as there were tasks.
  pub run_wrapped_tasks-depth :
      (fuel id : ℕ) (s : Scheduler Q (Wrapped F))
      → s.continue ≡ true
      → id < length s.tasks
      → All (Callable (length s.tasks)) (pending lf counts rounds s)
      → length (pending lf counts rounds s) < fuel
      → (s' : Scheduler Q (Wrapped F)) × (run_wrapped_tasks fuel id s
          ≡ returns (returned (length (pending lf counts rounds s)), s'))
        × (pending lf counts rounds s' ≡ [])
        × Permᴰ s'.ran (s.ran ++ pending lf counts rounds s)
        × (s'.continue ≡ true)
        × (length s'.tasks ≡ length s.tasks)
  unfolding run_wrapped_tasks
  run_wrapped_tasks-depth zero id s c h runs enough = absurd (omega arith)
  run_wrapped_tasks-depth (suc fuel) id s c h runs enough =
      elim (next_task-cases lf counts rounds id s h) [
        | inl (qs, found, size, empty, same) ↦ (
          with_tasks s qs,
          ground (arith, c, found, empty),
          ap flatten same ∙ empty,
          subst (λ l. Permᴰ s.ran (s.ran ++ l)) (sym empty)
              (subst (Permᴰ s.ran) (sym (append-nil s.ran)) (Permᴰ.refl s.ran)),
          c,
          size,
        )
        | inr (tsk, qs, found, size, taken) ↦
            let ((f, has, closed, in_range), run_rest) =
              All-perm (Callable (length s.tasks)) (Permᴰ.symm taken) runs in
            let s₁ = call_task tsk (with_tasks s qs) in
            let count : length (pending lf counts rounds s)
                ≡ suc (length (pending lf counts rounds s₁)) =
              sym (length-perm taken) in
            let (s₂, inner, empty₂, done₂, c₂, size₂) =
              run_wrapped_tasks-depth fuel f.id s₁ c (subst (λ n. f.id < n) (sym size) in_range)
                (subst (λ n. All (Callable n) (pending lf counts rounds s₁)) (sym size) run_rest)
                (omega (arith, count)) in
            let call =
              run_wrapped_task-call (run_wrapped_tasks fuel) (length (pending lf counts rounds s₁))
                tsk f (with_tasks s qs) s₂ c has closed inner in
            let nothing : length (pending lf counts rounds s₂) ≡ 0 = ap length empty₂ in
            let deepest : deeper (suc (length (pending lf counts rounds s₁)))
                  (length (pending lf counts rounds s₂))
                ≡ length (pending lf counts rounds s) =
              ground (arith, count, nothing) in
            let (s₃, rest, empty₃, done₃, c₃, size₃) =
              run_wrapped_tasks-depth fuel id s₂ c₂ (subst (λ n. id < n) (sym (size₂ ∙ size)) h)
                (subst (All (Callable (length s₂.tasks))) (sym empty₂) tt)
                (omega (arith, count, nothing)) in
            (
              s₃,
              run_wrapped_tasks-found fuel id (suc (length (pending lf counts rounds s₁)))
                    (length (pending lf counts rounds s₂)) tsk qs s s₂ s₃ c found call rest
                  ∙ ap (λ d. returns (returned d, s₃)) deepest,
              empty₃,
              ran-perm s s₂ s₃ qs tsk taken done₂ empty₂ done₃,
              c₃,
              size₃ ∙ size₂ ∙ size,
            )
      ]
