-- ===== src/Futures/Reachable.antt =====
-- The worlds that calls of `make_future_result`, `next` and `fork` lead to, with the tasks run in any
-- order in between, and what holds of the futures in them. A future is set by its task alone: the
-- program does not call `set_value` or `set_exception` itself. `fork` is called only while `get` on its
-- future waits; module Lost has what it does on one that is set.
use function_queue.Prelude.{
  ℕ, zero, suc, ◌<◌, ◌≡◌, ◌⊎◌, inl, inr, refl, ap, subst, ◌∙◌, Bool, true, false, List, [], Option,
  none, some, arith, length, get_elem?, Bool-cases, get_elem?-lt, ◌==◌,
}
use function_queue.Outcome.{Outcome, returns, throws}
use function_queue.MessageQueue.{Waited, returned, waiting}
use function_queue.Futures.Expected.{Expected, value, exception, and_then}
use function_queue.Futures.Member.{
  FutureStatus, deferred, is_status_ready, Member, World, make_future_result, next, fork_branches,
  fork, take_result, get, get_of, is_status_continued, run_code,
}
use function_queue.Futures.Invariant.{
  MemberOk, is_deferred, is_ready, is_continued, Aimed, Producer, by_task, by_future, Inv,
}
use function_queue.Futures.Steps.{make_future_result-Inv, next-Inv}
use function_queue.Futures.Forks.{Follows, fork-Inv}
use function_queue.Futures.Runs.{run_code-Inv}

module _ {ℓ} {A : Type ℓ} where
  -- There is a future `i`, and it has no continuation.
  abbrev pub Open : World A → ℕ → Type ℓ
  Open w i = (m : Member A) × (get_elem? w.members i ≡ some m) × (m.next ≡ none)

  abbrev pub no_world : World A
  no_world = record { members = []; tasks = [] }

module _ {ℓ} {A : Type ℓ} (den : ℕ → Expected A) where
  -- One call of a program as described above, or one task run by a worker. `den` names what each new future is for:
  -- what its function returns or throws, or what its function makes of the future before it.
  pub data Step (w : World A) : World A → Type ℓ where
    makes :
        (func : Unit {0} → Expected A) (w' : World A)
        → func tt ≡ den (length w.members)
        → make_future_result w func ≡ (length w.members, w')
        → Step w w'
    nexts :
        (i : ℕ) (func : A → Expected A) (j : ℕ) (w' : World A)
        → Open w i
        → den (length w.members) ≡ and_then (den i) func
        → next w i func ≡ returns (j, w')
        → Step w w'
    forks :
        (i : ℕ) (funcs : List (A → Expected A)) (js : List ℕ) (w' : World A)
        → Open w i
        → get w i ≡ waiting
        → Follows den i (fork_branches (length w.members) funcs)
        → fork w i funcs ≡ returns (js, w')
        → Step w w'
    runs : (k : ℕ) (w' : World A) → run_code w k ≡ returns w' → Step w w'

  pub data Reachable : World A → Type ℓ where
    starts : Reachable no_world
    steps : (w w' : World A) → Reachable w → Step w w' → Reachable w'

  -- What a caller of `get` sees.
  abbrev pub outcome : Expected A → Outcome A
  outcome (value v) = returns v
  outcome exception = throws

  no_world-Inv : Inv den no_world [] (λ i. false)
  no_world-Inv = record {
    members_ok = λ i m h. absurd (cc h);
    tasks_ok = tt;
    produced = λ j l h. absurd (cc h);
  }

  -- A future without a continuation, as `get` finds it.
  get-open :
      (w : World A) (unset : ℕ → Bool) (i : ℕ) (m : Member A)
      → Inv den w [] unset
      → get_elem? w.members i ≡ some m
      → m.next ≡ none
      → ((unset i ≡ true) × (get w i ≡ waiting))
        ⊎ ((unset i ≡ false) × (get w i ≡ returned (outcome (den i))))
  unfolding get
  get-open w unset i m inv at n = by_status (inv.members_ok i m at)
    where
      result_of : Bool → Option (Expected A) → Waited (Outcome A)
      result_of x r = elim x [ true ↦ returned throws | false ↦ returned (take_result r) ]

      pass : Bool → FutureStatus → Waited (Outcome A)
      pass x s = elim x [ false ↦ waiting | true ↦ result_of (is_status_continued s) m.result ]

      after : ℕ → FutureStatus → Waited (Outcome A)
      after c s = pass (elim (is_status_ready s) [ true ↦ true | false ↦ c == 0 ]) s

      start : get w i ≡ after m.count m.status
      start = ap get_of at

      taken : (e : Expected A) → take_result (some e) ≡ outcome e
      taken (value v) = refl
      taken exception = refl

      by_status :
          MemberOk den (length w.members) unset i m
          → ((unset i ≡ true) × (get w i ≡ waiting))
            ⊎ ((unset i ≡ false) × (get w i ≡ returned (outcome (den i))))
      by_status (is_deferred a s c r u) =
          inl (u, start ∙ ap (after m.count) s ∙ ap (λ k. after k deferred) c)
      by_status (is_ready a s r u) = inr (
        u,
        start
            ∙ ap (after m.count) s
            ∙ ap (result_of false) r
            ∙ ap (λ (o : Outcome A). returned o) (taken (den i)),
      )
      by_status (is_continued c a s bs) = absurd (cc (a, n))

  waiting-unset :
      (w : World A) (unset : ℕ → Bool) (i : ℕ) (m : Member A)
      → Inv den w [] unset
      → get_elem? w.members i ≡ some m
      → m.next ≡ none
      → get w i ≡ waiting
      → unset i ≡ true
  waiting-unset w unset i m inv at n h = elim (get-open w unset i m inv at n) [
    | inl (u, e) ↦ u
    | inr (u, e) ↦ absurd (cc (h, e))
  ]

  Reachable-Inv : (w : World A) → Reachable w → (unset : ℕ → Bool) × Inv den w [] unset
  Reachable-Inv w starts = (λ i. false, no_world-Inv)
  Reachable-Inv w (steps w₀ w₁ r s) = let (unset, inv) = Reachable-Inv w₀ r in step_inv unset inv s
    where
      step_inv :
          (unset : ℕ → Bool)
          → Inv den w₀ [] unset
          → Step w₀ w
          → (unset' : ℕ → Bool) × Inv den w [] unset'
      step_inv unset inv (makes func w' e ran) =
          let (u, inv') = make_future_result-Inv den w₀ unset func inv e in
          (u, subst (λ k. Inv den k [] u) (ap (λ p. p.1) ran) inv')
      step_inv unset inv (nexts i func j w' (m, at, n) follows ran) =
          let (w'', u, ran', inv') = next-Inv den w₀ unset i m func inv at n follows in
          let same : w'' ≡ w' = cc (ran, ran') in (u, subst (λ k. Inv den k [] u) same inv')
      step_inv unset inv (forks i funcs js w' (m, at, n) waits follows ran) =
          let (w'', u, ran', inv') =
            fork-Inv den w₀ unset i m funcs inv at n (waiting-unset w₀ unset i m inv at n waits)
              follows in
          let same : w'' ≡ w' = cc (ran, ran') in (u, subst (λ k. Inv den k [] u) same inv')
      step_inv unset inv (runs k w' ran) =
          let (w'', u, ran', inv') = run_code-Inv den w₀ unset k inv in
          let same : w'' ≡ w' = cc (ran, ran') in (u, subst (λ k. Inv den k [] u) same inv')

  -- A future is set once no task is left: its producers lead back to one that needs a task.
  all_set :
      (fuel : ℕ) (w : World A) (unset : ℕ → Bool) (i : ℕ)
      → Inv den w [] unset
      → w.tasks ≡ []
      → i < fuel
      → i < length w.members
      → unset i ≡ false
  all_set zero w unset i inv q f l = absurd (omega arith)
  all_set (suc fuel) w unset i inv q f l = elim (Bool-cases (unset i)) [
    | inl h ↦ by_producer (λ j u l' f'. all_set fuel w unset j inv q f' l') (inv.produced i l h)
    | inr h ↦ h
  ]
    where
      by_producer :
          ((j : ℕ) → unset j ≡ true → j < length w.members → j < fuel → unset j ≡ false)
          → Producer w [] unset i
          → unset i ≡ false
      by_producer earlier (by_task a) = absurd (subst (Aimed i) q a)
      by_producer earlier (by_future j m c e at n b u) =
          absurd (cc (u, earlier j u (omega arith) (omega arith)))

  -- In a world that is reached by `make_future_result`, by `next`, by `fork` on futures on which `get`
  -- waits, and by runs of the tasks, in any order, no other call having set a future: a call of `get`
  -- that is made then, on a future without a continuation, waits or comes back with what the future is
  -- for, its value or its exception.
  pub get-Reachable :
      (w : World A) (i : ℕ)
      → Reachable w
      → Open w i
      → (get w i ≡ waiting) ⊎ (get w i ≡ returned (outcome (den i)))
  get-Reachable w i r (m, at, n) =
      let (unset, inv) = Reachable-Inv w r in
      elim (get-open w unset i m inv at n) [ inl (u, h) ↦ inl h | inr (u, h) ↦ inr h ]

  -- In a world that is reached by `make_future_result`, by `next`, by `fork` on futures on which `get`
  -- waits, and by runs of the tasks, in any order, no other call having set a future: when no task is
  -- left, a call of `get` that is made then, on any future without a continuation, comes back with what
  -- the future is for, however long the chain behind it.
  pub get-drained :
      (w : World A) (i : ℕ)
      → Reachable w
      → Open w i
      → w.tasks ≡ []
      → get w i ≡ returned (outcome (den i))
  get-drained w i r (m, at, n) q =
      let (unset, inv) = Reachable-Inv w r in
      let off =
        all_set (length w.members) w unset i inv q (get_elem?-lt w.members i m at)
          (get_elem?-lt w.members i m at) in
      elim (get-open w unset i m inv at n) [ inl (u, h) ↦ absurd (cc (u, off)) | inr (u, h) ↦ h ]

  -- In a world that is reached by `make_future_result`, by `next`, by `fork` on futures on which `get`
  -- waits, and by runs of the tasks, in any order, no other call having set a future: running any task
  -- comes to an end in another such world, whatever chains and forks of continuations hang on the future
  -- that the task sets.
  pub run_code-Reachable :
      (w : World A) (k : ℕ)
      → Reachable w
      → (w' : World A) × (run_code w k ≡ returns w') × Reachable w'
  run_code-Reachable w k r =
      let (unset, inv) = Reachable-Inv w r in
      let (w', u, ran, inv') = run_code-Inv den w unset k inv in
      (w', ran, steps w w' r (runs k w' ran))

  -- In such a world, `next` on a future without a continuation comes to an end and
  -- gives a new future, whether or not the old one has been set.
  pub next-Reachable :
      (w : World A) (i : ℕ) (func : A → Expected A)
      → Reachable w
      → Open w i
      → den (length w.members) ≡ and_then (den i) func
      → (w' : World A) × (next w i func ≡ returns (length w.members, w')) × Reachable w'
  next-Reachable w i func r (m, at, n) follows =
      let (unset, inv) = Reachable-Inv w r in
      let (w', u, ran, inv') = next-Inv den w unset i m func inv at n follows in
      (w', ran, steps w w' r (nexts i func (length w.members) w' (m, at, n) follows ran))
