-- ===== src/Scheduler/Running.antt =====
-- Workers that call `run_next_task`: each task that waits in a queue is run, and once.
use mathlib.Core.List.Permᴰ
use function_queue.Prelude.{
  ℕ, suc, ◌-◌, ◌≤◌, ◌<◌, ◌≡◌, refl, sym, ap, subst, ◌∙◌, Bool, true, false, not, List, [], ◌∷◌,
  ◌++◌, map, none, some, arith, length, All, All-perm, Permᴰ, append_assoc, append-nil, flatten,
  length-perm, length-map, Option-cases, ◌⊎◌, inl, inr, ◌==◌,
}
use function_queue.Outcome.{Outcome, returns, ◌>>=◌}
use function_queue.MessageQueue.{LockfreeQueue, returned, Round}
use function_queue.Scheduler.{
  Task, Scheduler, is_ready, with_tasks, call_task, send_task, next_task, run_task, run_next_task,
}
use function_queue.Scheduler.Cycle.{others}
use function_queue.Scheduler.Search.{push_to, take_from, first}
use function_queue.Scheduler.Contents.{next_task-first, send_task-first}
use function_queue.Scheduler.Pending.{first_take-perm, first_take-none, first_push-perm}

module _ {ℓ κ} {Q : Type κ} {F : Type ℓ} (lf : LockfreeQueue Q (Task F)) (counts : ℕ → ℕ)
    (rounds : List (Round Q)) where
  open lf use {contents}

  -- The tasks in the queues.
  abbrev pub pending : Scheduler Q F → List (Task F)
  pending s = flatten (map contents s.tasks)

  -- A task that `run_task` calls: it has a function, and its latch is not open.
  abbrev pub Runnable : Task F → Type ℓ
  Runnable tsk = (f : F) × (tsk.function ≡ some f) × (is_ready counts tsk ≡ false)

  -- Workers take turns: worker `id` calls `run_next_task( id )`.
  unfoldable pub run_turns : List ℕ → Scheduler Q F → Outcome (Scheduler Q F)
  run_turns [] s = returns s
  run_turns (id ∷ ids) s = run_next_task lf counts rounds id s >>= λ (w, s'). run_turns ids s'

  pub run_task-call :
      (tsk : Task F) (s : Scheduler Q F)
      → s.continue ≡ true
      → Runnable tsk
      → run_task lf counts rounds (some tsk) s ≡ returns (returned true, call_task tsk s)
  unfolding run_task
  run_task-call tsk s c (f, has, closed) = ground (arith, c, has, closed)

  -- What one turn comes to: the task that was run, if there was one, is no longer in a queue.
  pub record Progress (s s' : Scheduler Q F) (w : Bool) : Type (ℓ ⊔ κ) where
    pub answer : w ≡ not (length (pending s) == 0)
    pub continues : s'.continue ≡ true
    pub same_queues : length s'.tasks ≡ length s.tasks
    pub same_threads : s'.num_threads ≡ s.num_threads
    pub conserved : Permᴰ (s'.ran ++ pending s') (s.ran ++ pending s)
    pub one_less : length (pending s') ≡ length (pending s) - 1
    pub still_run : All Runnable (pending s')

  turn_found :
      (id : ℕ) (s : Scheduler Q F) (qs : List Q) (tsk : Task F)
      → s.continue ≡ true
      → All Runnable (pending s)
      → next_task lf id s.tasks ≡ returns (some tsk, qs)
      → length qs ≡ length s.tasks
      → Permᴰ (tsk ∷ flatten (map contents qs)) (pending s)
      → (run_next_task lf counts rounds id s
          ≡ returns (returned true, call_task tsk (with_tasks s qs)))
        × Progress s (call_task tsk (with_tasks s qs)) true
  unfolding run_next_task
  turn_found id s qs tsk c runs found size taken =
      let (run_it, run_rest) = All-perm Runnable (Permᴰ.symm taken) runs in
      let call = run_task-call tsk (with_tasks s qs) c run_it in
      let counted : suc (length (flatten (map contents qs))) ≡ length (pending s) =
        length-perm taken in
      (
        ground (arith, found, call),
        record {
          answer = ground (arith, counted);
          continues = c;
          same_queues = size;
          same_threads = refl;
          conserved =
              subst (λ l. Permᴰ l (s.ran ++ pending s))
                (sym (append_assoc s.ran (tsk ∷ []) (flatten (map contents qs))))
                (Permᴰ.append_left s.ran taken);
          one_less = omega (arith, counted);
          still_run = run_rest;
        },
      )

  turn_idle :
      (id : ℕ) (s : Scheduler Q F) (qs : List Q)
      → s.continue ≡ true
      → next_task lf id s.tasks ≡ returns (none, qs)
      → length qs ≡ length s.tasks
      → pending s ≡ []
      → map contents qs ≡ map contents s.tasks
      → (run_next_task lf counts rounds id s ≡ returns (returned false, with_tasks s qs))
        × Progress s (with_tasks s qs) false
  unfolding run_next_task
  turn_idle id s qs c idle size empty same =
      let now : flatten (map contents qs) ≡ [] = ap flatten same ∙ empty in
      (
        ground (arith, idle),
        record {
          answer = ground (arith, empty);
          continues = c;
          same_queues = size;
          same_threads = refl;
          conserved =
              subst (λ l. Permᴰ l (s.ran ++ pending s)) (ap (λ cs. s.ran ++ flatten cs) (sym same))
                (Permᴰ.refl (s.ran ++ pending s));
          one_less = ground (arith, empty, now);
          still_run = subst (All Runnable) (sym now) tt;
        },
      )

  -- What `next_task` finds: nothing, when no task waits, or one of the waiting tasks.
  pub next_task-cases :
      (id : ℕ) (s : Scheduler Q F)
      → id < length s.tasks
      → ((qs : List Q) × (next_task lf id s.tasks ≡ returns (none, qs))
          × (length qs ≡ length s.tasks)
          × (pending s ≡ [])
          × (map contents qs ≡ map contents s.tasks))
        ⊎ ((tsk : Task F) × (qs : List Q) × (next_task lf id s.tasks ≡ returns (some tsk, qs))
            × (length qs ≡ length s.tasks)
            × Permᴰ (tsk ∷ flatten (map contents qs)) (pending s))
  next_task-cases id s h =
      let (qs, found, held, size) = next_task-first lf id s.tasks h in
      let ms = id ∷ others id (length s.tasks) in
      let cs = map contents s.tasks in
      let wide : length cs ≡ length s.tasks = length-map contents s.tasks in
      elim (Option-cases (first take_from ms cs).0) [
        | inl e ↦
            let (empty, same) =
              first_take-none id cs
                (ap (λ n. (first take_from (id ∷ others id n) cs).0) wide ∙ e) in
            inl (
              qs,
              found ∙ ap (λ r. returns (r, qs)) e,
              size,
              empty,
              held ∙ ap (λ n. (first take_from (id ∷ others id n) cs).1) (sym wide) ∙ same,
            )
        | inr (tsk, e) ↦ inr (
          tsk,
          qs,
          found ∙ ap (λ r. returns (r, qs)) e,
          size,
          subst (λ l. Permᴰ (tsk ∷ flatten l) (pending s)) (sym held) (first_take-perm ms cs tsk e),
        )
      ]

  pub turn :
      (id : ℕ) (s : Scheduler Q F)
      → s.continue ≡ true
      → id < length s.tasks
      → All Runnable (pending s)
      → (w : Bool) × (s' : Scheduler Q F) × (run_next_task lf counts rounds id s
          ≡ returns (returned w, s'))
        × Progress s s' w
  turn id s c h runs = elim (next_task-cases id s h) [
    | inl (qs, found, size, empty, same) ↦
        let here = turn_idle id s qs c found size empty same in
        (false, with_tasks s qs, here.0, here.1)
    | inr (tsk, qs, found, size, taken) ↦
        let here = turn_found id s qs tsk c runs found size taken in
        (true, call_task tsk (with_tasks s qs), here.0, here.1)
  ]

  turns :
      (ids : List ℕ) (s : Scheduler Q F)
      → s.continue ≡ true
      → All (λ id. id < length s.tasks) ids
      → All Runnable (pending s)
      → (s' : Scheduler Q F) × (run_turns ids s ≡ returns s')
        × Permᴰ (s'.ran ++ pending s') (s.ran ++ pending s)
        × (length (pending s') ≡ length (pending s) - length ids)
  unfolding run_turns
  turns [] s c hs runs = (s, refl, Permᴰ.refl (s.ran ++ pending s), omega arith)
  turns (id ∷ ids) s c (h, hs) runs =
      let (w, s₁, ends, t) = turn id s c h runs in
      let (s₂, rest, kept, left) =
        turns ids s₁ t.continues (subst (λ n. All (λ i. i < n) ids) (sym t.same_queues) hs)
          t.still_run in
      (
        s₂,
        ap (λ o. o >>= λ (_, s'). run_turns ids s') ends ∙ rest,
        Permᴰ.trans kept t.conserved,
        omega (arith, left, t.one_less),
      )

  -- Workers, in any order, that take at least as many turns as tasks wait in the queues of a running
  -- scheduler: every one of these tasks is run, exactly once, if all of them have a function and a
  -- latch that is not open.
  pub run_turns_complete :
      (ids : List ℕ) (s : Scheduler Q F)
      → s.continue ≡ true
      → All (λ id. id < length s.tasks) ids
      → All Runnable (pending s)
      → length (pending s) ≤ length ids
      → (s' : Scheduler Q F) × (run_turns ids s ≡ returns s')
        × (pending s' ≡ [])
        × Permᴰ s'.ran (s.ran ++ pending s)
  run_turns_complete ids s c hs runs enough =
      let (s', ends, kept, left) = turns ids s c hs runs in
      let done : pending s' ≡ [] = no_items (pending s') (omega (arith, left)) in
      (
        s',
        ends,
        done,
        subst (λ l. Permᴰ l (s.ran ++ pending s)) (ap (λ l. s'.ran ++ l) done ∙ append-nil s'.ran)
            kept,
      )
    where
      no_items : (l : List (Task F)) → length l ≡ 0 → l ≡ []
      no_items [] e = refl
      no_items (x ∷ l) e = absurd (omega (arith, e))

  -- A running scheduler with room in some queue: `send_task` returns true without waiting, and the
  -- tasks in the queues are those that were there and the one that was sent.
  send_task-conserves :
      (tsk : Task F) (id : ℕ) (s : Scheduler Q F)
      → s.continue ≡ true
      → s.num_threads ≡ length s.tasks
      → id < length s.tasks
      → (first (push_to lf.capacity tsk) (id ∷ others id (length s.tasks)) (map contents s.tasks)).0
        ≡ some tt
      → (s' : Scheduler Q F) × (send_task lf rounds (some tsk) id s ≡ returns (returned true, s'))
        × Permᴰ (pending s') (tsk ∷ pending s)
        × (s'.ran ≡ s.ran)
  unfolding with_tasks
  send_task-conserves tsk id s c n h room =
      let (qs, ends, held) = send_task-first lf rounds tsk id s c n h room in
      (
        with_tasks s qs,
        ends,
        subst (λ cs. Permᴰ (flatten cs) (tsk ∷ pending s)) (sym held)
            (first_push-perm lf.capacity tsk (id ∷ others id (length s.tasks))
              (map contents s.tasks) room),
        refl,
      )
