-- ===== src/Scheduler/Token/Losing.antt =====
-- What becomes of the task that a temporary worker finds in the queues of the others, in
-- `wait_for_task_from_pool( id, tok )` and `task_runner` of src/task_scheduler.cpp.
use function_queue.Prelude.{
  ℕ, zero, suc, ◌+◌, ◌%◌, ◌<◌, ◌≡◌, ◌≢◌, refl, sym, ap, subst, ◌∙◌, Bool, true, false, not, List,
  [], ◌∷◌, map, Option, none, some, arith, length, length-map, get_elem?, get_elem?-lt, set, ◌==◌,
  ◌&&◌, if◌then◌else◌,
}
use function_queue.Outcome.{Outcome, returns, ◌>>=◌}
use function_queue.MessageQueue.{LockfreeQueue, Waited, returned, waiting, Round, uncons}
use function_queue.Scheduler.{Task, Scheduler, with_tasks, pop_at, pop_front_at, run_task}
use function_queue.Scheduler.Search.{take_from, pop_at-Follows}
use function_queue.Scheduler.Pending.{take_from-keep}
use function_queue.Scheduler.Token.{
  Found, hit, nothing_found, gave_up, no_answer, keep_or_drop, search_others, search_round,
  wait_for_task_with_token, runner_round,
}

-- So many times yes, and then the other answers.
abbrev pub yes : ℕ → List Bool → List Bool
yes zero answers = answers
yes (suc n) answers = true ∷ yes n answers

-- The index that the loop comes to from `m` after `d` steps.
abbrev pub index_after : ℕ → ℕ → ℕ → ℕ
index_after sz zero m = m
index_after sz (suc d) m = index_after sz d ((m + 1) % sz)

module _ {ℓ} {T : Type ℓ} where
  -- From index `m` on the loop meets `d` empty queues, and then one that begins with `tsk`.
  abbrev pub LeadsTo : ℕ → ℕ → List (List T) → T → List T → ℕ → ℕ → Type ℓ
  LeadsTo sz qid cs tsk rest zero m = (m ≢ qid) × (get_elem? cs m ≡ some (tsk ∷ rest))
  LeadsTo sz qid cs tsk rest (suc d) m =
      (m ≢ qid) × (get_elem? cs m ≡ some []) × LeadsTo sz qid cs tsk rest d ((m + 1) % sz)

  abbrev taken_at : List (List T) → ℕ → Option (List T) → Option T × List (List T)
  taken_at cs m o = elim o [ none ↦ (none, cs) | some c ↦ ((uncons c).0, set cs m (uncons c).1) ]

  take_from-of :
      (cs : List (List T)) (m : ℕ) (c : List T)
      → get_elem? cs m ≡ some c
      → take_from m cs ≡ ((uncons c).0, set cs m (uncons c).1)
  take_from-of cs m c e = ap (taken_at cs m) e

module _ {ℓ κ} {Q : Type κ} {F : Type ℓ} (lf : LockfreeQueue Q (Task F)) where
  open lf use {contents}

  in_range :
      (m : ℕ) (qs : List Q) (c : List (Task F))
      → get_elem? (map contents qs) m ≡ some c
      → m < length qs
  in_range m qs c e = omega (arith, get_elem?-lt (map contents qs) m c e, length-map contents qs)

  -- What the loop does with what it has popped.
  abbrev look :
      ℕ
      → ℕ
      → List Bool
      → ℕ
      → ℕ
      → Option (Task F) × List Q
      → Outcome ((Found F × List Bool) × List Q)
  look fuel m answers qid sz p = elim p.0 [
    | none ↦ search_others lf fuel answers ((m + 1) % sz) qid sz p.1
    | some tsk ↦ returns (keep_or_drop answers tsk, p.1)
  ]

  not_own :
      (fuel m : ℕ) (answers : List Bool) (qid sz : ℕ) (qs : List Q)
      → m ≢ qid
      → search_others lf (suc fuel) (true ∷ answers) m qid sz qs
        ≡ (pop_at lf m qs >>= look fuel m answers qid sz)
  unfolding search_others
  not_own fuel m answers qid sz qs ne =
      let off : (m == qid) ≡ false = ground (arith, ne) in
      ap
        (λ b.
          if b
          then returns ((nothing_found, true ∷ answers), qs)
          else (pop_at lf m qs >>= look fuel m answers qid sz))
        off

  -- What follows the search, and what follows the wait for a task.
  abbrev after_search :
      List (List Q → List Q)
      → List (Round Q)
      → ℕ
      → Scheduler Q F
      → (Found F × List Bool) × List Q
      → Outcome (Waited (Option (Task F)) × Scheduler Q F)
  after_search turns rounds id s p =
      let sz = length s.tasks in
      let qid = id % sz in
      elim p.0.0 [
        | hit tsk ↦ returns (returned (some tsk), with_tasks s p.1)
        | gave_up ↦ returns (returned none, with_tasks s p.1)
        | no_answer ↦ returns (waiting, with_tasks s p.1)
        | nothing_found ↦
            if not (id == qid)
            then (search_round lf turns p.0.1 qid sz p.1 >>= λ (w, qs').
                returns (w, with_tasks s qs'))
            else pop_front_at lf rounds qid p.1 >>= λ (w, qs'). returns (w, with_tasks s qs')
      ]

  abbrev after_wait :
      (ℕ → ℕ)
      → Bool
      → List (Round Q)
      → Waited (Option (Task F)) × Scheduler Q F
      → Outcome (Waited Bool × Scheduler Q F)
  after_wait counts still rounds p = elim p.0 [
    | waiting ↦ returns (waiting, p.1)
    | returned none ↦ returns (returned true, p.1)
    | returned (some tsk) ↦
        if still then run_task lf counts rounds (some tsk) p.1 else returns (returned true, p.1)
  ]

  -- The loop finds the task behind the empty queues.
  search_others-finds :
      (fuel d m : ℕ) (b : Bool) (answers : List Bool) (qid sz : ℕ) (qs : List Q) (tsk : Task F)
      (rest : List (Task F))
      → d < fuel
      → length qs ≡ sz
      → LeadsTo sz qid (map contents qs) tsk rest d m
      → (qs' : List Q) × (search_others lf fuel (yes (suc d) (b ∷ answers)) m qid sz qs
          ≡ returns (keep_or_drop (b ∷ answers) tsk, qs'))
        × (map contents qs' ≡ set (map contents qs) (index_after sz d m) rest)
  unfolding search_others
  search_others-finds zero d m b answers qid sz qs tsk rest h n p = absurd (omega arith)
  search_others-finds (suc fuel) zero m b answers qid sz qs tsk rest h n (ne, there) =
      let (qs', ran, left, same) = pop_at-Follows lf m qs (in_range m qs (tsk ∷ rest) there) in
      let taken = take_from-of (map contents qs) m (tsk ∷ rest) there in
      (
        qs',
        not_own fuel m (b ∷ answers) qid sz qs ne
            ∙ ap (λ o. o >>= look fuel m (b ∷ answers) qid sz)
                (ran ∙ ap (λ r. returns (r.0, qs')) taken),
        left ∙ ap (λ r. r.1) taken,
      )
  search_others-finds (suc fuel) (suc d) m b answers qid sz qs tsk rest h n (ne, empty, p) =
      let (qs', ran, left, same) = pop_at-Follows lf m qs (in_range m qs [] empty) in
      let taken = take_from-of (map contents qs) m [] empty in
      let kept : map contents qs' ≡ map contents qs =
        left ∙ take_from-keep m (map contents qs) (ap (λ r. r.0) taken) in
      let (qs'', ran', left') =
        search_others-finds fuel d ((m + 1) % sz) b answers qid sz qs' tsk rest (omega arith)
          (same ∙ n) (subst (λ cs. LeadsTo sz qid cs tsk rest d ((m + 1) % sz)) (sym kept) p) in
      (
        qs'',
        not_own fuel m (yes (suc d) (b ∷ answers)) qid sz qs ne
            ∙ ap (λ o. o >>= look fuel m (yes (suc d) (b ∷ answers)) qid sz)
                (ran ∙ ap (λ r. returns (r.0, qs')) taken)
            ∙ ran',
        left' ∙ ap (λ cs. set cs (index_after sz (suc d) m) rest) kept,
      )

  -- The answer after the task has been taken decides whether the search returns it.
  kept_or_dropped :
      (b : Bool) (answers : List Bool) (turns : List (List Q → List Q)) (rounds : List (Round Q))
      (id : ℕ) (s : Scheduler Q F) (tsk : Task F) (qs : List Q)
      → after_search turns rounds id s (keep_or_drop (b ∷ answers) tsk, qs)
        ≡ returns (returned (if b then some tsk else none), with_tasks s qs)
  kept_or_dropped true answers turns rounds id s tsk qs = refl
  kept_or_dropped false answers turns rounds id s tsk qs = refl

  run_or_lose :
      (counts : ℕ → ℕ) (b still : Bool) (rounds : List (Round Q)) (s : Scheduler Q F) (tsk : Task F)
      → after_wait counts still rounds (returned (if b then some tsk else none), s) ≡ (
          if b && still then run_task lf counts rounds (some tsk) s else returns (returned true, s))
  run_or_lose counts true still rounds s tsk = refl
  run_or_lose counts false still rounds s tsk = refl

  -- One round of the loop of `task_runner( id, tok )` in which the search of the other queues comes,
  -- behind any number of empty ones, to a queue with a task, the answers of `m_continue and tok` being
  -- yes up to there. The first task of that queue is taken out, and no other. If the two answers that
  -- follow are yes, behind the pop and in `task_runner`, that task is given to `run_task`. If one of
  -- them is no, the task is lost: it is in no queue any more, and the round ends without running it.
  pub runner_round-loses :
      (counts : ℕ → ℕ) (d : ℕ) (b : Bool) (answers : List Bool) (still : Bool)
      (turns : List (List Q → List Q)) (rounds : List (Round Q)) (id : ℕ) (s : Scheduler Q F)
      (tsk : Task F) (rest : List (Task F))
      → d < length s.tasks
      → LeadsTo
          (length s.tasks)
          (id % length s.tasks)
          (map lf.contents s.tasks)
          tsk
          rest
          d
          ((id % length s.tasks + 1) % length s.tasks)
      → (qs : List Q) × (map lf.contents qs
          ≡ set
              (map lf.contents s.tasks)
              (index_after (length s.tasks) d ((id % length s.tasks + 1) % length s.tasks))
              rest)
        × (runner_round lf counts (true ∷ yes (suc d) (b ∷ answers)) still turns rounds id s ≡ (
            if b && still
            then run_task lf counts rounds (some tsk) (with_tasks s qs)
            else returns (returned true, with_tasks s qs)))
  unfolding runner_round wait_for_task_with_token
  runner_round-loses counts d b answers still turns rounds id s tsk rest h p =
      let sz = length s.tasks in
      let (qs, ran, left) =
        search_others-finds sz d ((id % sz + 1) % sz) b answers (id % sz) sz s.tasks tsk rest h refl
          p in
      (
        qs,
        left,
        ap (λ o. (o >>= after_search turns rounds id s) >>= after_wait counts still rounds) ran
            ∙ ap (λ o. o >>= after_wait counts still rounds)
                (kept_or_dropped b answers turns rounds id s tsk qs)
            ∙ run_or_lose counts b still rounds (with_tasks s qs) tsk,
      )
