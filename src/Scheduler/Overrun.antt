-- ===== src/Scheduler/Overrun.antt =====
-- `send_task` after `wait_for_scope` has counted a thread that has no queue.
use native.Mathlib.Nat.{mod-eq_of_lt}
use function_queue.Prelude.{
  ℕ, zero, suc, ◌+◌, ◌%◌, ◌≤◌, ◌<◌, ◌≡◌, ◌⊎◌, inl, inr, le_or_lt, refl, sym, ap, subst, ◌∙◌, Bool,
  true, false, not, List, [], ◌∷◌, Option, none, some, arith, length, get_elem?, set, length-set,
  get_elem?-there, ◌==◌, if◌then◌else◌, All,
}
use function_queue.Outcome.{Outcome, returns, undefined, ◌>>=◌}
use function_queue.QueueLoops.{for_others}
use function_queue.MessageQueue.{
  PushBackResult, LockfreeQueue, Waited, failed, success, returned, Round, try_push_back,
}
use function_queue.Scheduler.{Task, Scheduler, with_tasks, push_at, push_back_at, send_task}
use function_queue.Scheduler.Pool.{Pool, add_queue, set_num_threads, has_empty_queue, enter_scope}

module _ {ℓ κ} {Q : Type κ} {F : Type ℓ} (lf : LockfreeQueue Q (Task F)) where
  open lf use {capacity, contents}

  -- A queue with no room.
  abbrev pub Full : Q → Type 0
  Full q = capacity ≤ length (contents q)

  All-set : (qs : List Q) (m : ℕ) (q : Q) → Full q → All Full qs → All Full (set qs m q)
  All-set [] m q f h = tt
  All-set (x ∷ qs) zero q f (h, hs) = (f, hs)
  All-set (x ∷ qs) (suc m) q f (h, hs) = (h, All-set qs m q f hs)

  All-get : (qs : List Q) (m : ℕ) (q : Q) → get_elem? qs m ≡ some q → All Full qs → Full q
  All-get [] m q e h = absurd (cc e)
  All-get (x ∷ qs) zero q e (h, hs) = let same : x ≡ q = cc e in subst Full same h
  All-get (x ∷ qs) (suc m) q e (h, hs) = All-get qs m q e hs

  get_elem?-out : (qs : List Q) (m : ℕ) → length qs ≤ m → get_elem? qs m ≡ none
  get_elem?-out [] m h = refl
  get_elem?-out (x ∷ qs) zero h = absurd (omega arith)
  get_elem?-out (x ∷ qs) (suc m) h = get_elem?-out qs m (omega arith)

  -- A full queue takes nothing.
  push_at-Full :
      (tsk : Task F) (m : ℕ) (qs : List Q)
      → m < length qs
      → All Full qs
      → (qs' : List Q) × (push_at lf tsk m qs ≡ returns (none, qs'))
        × All Full qs'
        × (length qs' ≡ length qs)
  unfolding push_at try_push_back
  push_at-Full tsk m qs l h =
      let (q, at) = get_elem?-there qs m l in
      let full = All-get qs m q at h in
      let no : (lf.push tsk q).0 ≡ false = lf.push-result tsk q ∙ ground arith in
      let same : contents (lf.push tsk q).1 ≡ contents q = lf.push-contents tsk q ∙ ground arith in
      (
        set qs m (lf.push tsk q).1,
        ap found at ∙ ap (answer q (lf.push tsk q).1) no,
        All-set qs m (lf.push tsk q).1 (subst (λ l. capacity ≤ length l) (sym same) full) h,
        length-set qs m (lf.push tsk q).1,
      )
    where
      answer : Q → Q → Bool → Outcome (Option (Unit {0}) × List Q)
      answer q q' pushed =
          let (r, q'') : PushBackResult × Q = if not pushed then (failed, q') else (success, q') in
          returns (elim r [ failed ↦ none | success ↦ some tt ], set qs m q'')

      found : Option Q → Outcome (Option (Unit {0}) × List Q)
      found o = elim o [ none ↦ undefined | some q ↦ answer q (lf.push tsk q).1 (lf.push tsk q).0 ]

  push_at-out :
      (tsk : Task F) (m : ℕ) (qs : List Q) → length qs ≤ m → push_at lf tsk m qs ≡ undefined
  unfolding push_at
  push_at-out tsk m qs h =
      ap
        (λ (o : Option Q). elim o as (λ _. Outcome (Option (Unit {0}) × List Q)) [
          | none ↦ undefined
          | some q ↦
              let (r, q') = try_push_back lf tsk q in
              returns (elim r [ failed ↦ none | success ↦ some tt ], set qs m q')
        ])
        (get_elem?-out qs m h)

  -- With one more thread than queues, the loop over the other queues comes to one that is not there.
  for_others-out :
      (fuel : ℕ) (tsk : Task F) (m id : ℕ) (qs : List Q)
      → id < m
      → m ≤ length qs
      → length qs < fuel + m
      → All Full qs
      → for_others (push_at lf tsk) fuel m id (suc (length qs)) qs ≡ undefined
  unfolding for_others
  for_others-out zero tsk m id qs a b c h = absurd (omega arith)
  for_others-out (suc fuel) tsk m id qs a b c h =
      let off : (m == id) ≡ false = ground (arith, a) in
      ap (λ b. if b then returns (none, qs) else (push_at lf tsk m qs >>= rest)) off
      ∙ by_place
          (λ qs' b' c' h'. for_others-out fuel tsk (suc m) id qs' (omega (arith, a)) b' c' h')
          (le_or_lt (length qs) m)
    where
      rest : Option (Unit {0}) × List Q → Outcome (Option (Unit {0}) × List Q)
      rest p = elim p.0 [
        | none ↦
            for_others (push_at lf tsk) fuel ((m + 1) % suc (length qs)) id (suc (length qs)) p.1
        | some x ↦ returns (some x, p.1)
      ]

      by_place :
          ((qs' : List Q)
            → suc m ≤ length qs'
            → length qs' < fuel + suc m
            → All Full qs'
            → for_others (push_at lf tsk) fuel (suc m) id (suc (length qs')) qs' ≡ undefined)
          → (length qs ≤ m) ⊎ (m < length qs)
          → push_at lf tsk m qs >>= rest ≡ undefined
      by_place earlier (inl out) = ap (λ o. o >>= rest) (push_at-out tsk m qs out)
      by_place earlier (inr l) =
          let (qs', ran, h', same) = push_at-Full tsk m qs l h in
          let next : (m + 1) % suc (length qs) ≡ suc m =
            ap (λ k. k % suc (length qs)) (omega arith) ∙ mod-eq_of_lt (omega arith) in
          ap (λ o. o >>= rest) ran
          ∙ ap (λ k. for_others (push_at lf tsk) fuel k id (suc (length qs)) qs') next
          ∙ ap (λ k. for_others (push_at lf tsk) fuel (suc m) id (suc k) qs') (sym same)
          ∙ earlier qs' (omega (arith, same, l)) (omega (arith, same)) h'

  send_task-out :
      (rounds : List (Round Q)) (tsk : Task F) (id : ℕ) (s : Scheduler Q F)
      → s.continue ≡ true
      → id < length s.tasks
      → s.num_threads ≡ suc (length s.tasks)
      → All Full s.tasks
      → send_task lf rounds (some tsk) id s ≡ undefined
  unfolding send_task
  send_task-out rounds tsk id s go l n h =
      let (qs, ran, h', same) = push_at-Full tsk id s.tasks l h in
      let next : (id + 1) % suc (length s.tasks) ≡ suc id =
        ap (λ k. k % suc (length s.tasks)) (omega arith) ∙ mod-eq_of_lt (omega arith) in
      ap (λ b. if not b then returns (returned true, s) else (push_at lf tsk id s.tasks >>= later))
        go
      ∙ ap (λ o. o >>= later) ran
      ∙ ap (λ o. o >>= last)
          (ap (λ k. for_others (push_at lf tsk) k ((id + 1) % k) id k qs) n
            ∙ ap
                (λ k.
                  for_others (push_at lf tsk) (suc (length s.tasks)) k id (suc (length s.tasks)) qs)
                next
            ∙ ap (λ k. for_others (push_at lf tsk) (suc k) (suc id) id (suc k) qs) (sym same)
            ∙ for_others-out (suc (length qs)) tsk (suc id) id qs (omega arith)
                (omega (arith, same, l)) (omega arith) h')
    where
      last : Option (Unit {0}) × List Q → Outcome (Waited Bool × Scheduler Q F)
      last p = elim p.0 [
        | some x ↦ returns (returned true, with_tasks s p.1)
        | none ↦ push_back_at lf rounds tsk id p.1 >>= λ (w, qs''). returns (w, with_tasks s qs'')
      ]

      later : Option (Unit {0}) × List Q → Outcome (Waited Bool × Scheduler Q F)
      later p = elim p.0 [
        | some x ↦ returns (returned true, with_tasks s p.1)
        | none ↦
            for_others (push_at lf tsk) s.num_threads ((id + 1) % s.num_threads) id s.num_threads
              p.1
            >>= last
      ]

  -- `wait_for_scope`, called on a running scheduler while every queue is full and `m_num_threads` is the
  -- number of the queues, counts a thread that has no queue. As long as the
  -- queues stay full, sending a task then reads a queue that is not there, whichever of the queues the
  -- task is sent to.
  pub send_task-enter_scope :
      (is_empty : Q → Bool)
      → ((q : Q) → is_empty q ≡ (length (contents q) == 0))
      → (rounds : List (Round Q)) (tsk : Task F) (id : ℕ) (p : Pool Q F)
      → p.scheduler.continue ≡ true
      → id < length p.scheduler.tasks
      → p.scheduler.num_threads ≡ length p.scheduler.tasks
      → 0 < capacity
      → All Full p.scheduler.tasks
      → send_task lf rounds (some tsk) id (enter_scope is_empty p).1.scheduler ≡ undefined
  unfolding enter_scope
  send_task-enter_scope is_empty law rounds tsk id p go l n room h =
      ap sent (none_empty p.scheduler.tasks h)
      ∙ send_task-out rounds tsk id counted go l (omega (arith, n)) h
    where
      counted : Scheduler Q F
      counted = set_num_threads (p.scheduler.num_threads + 1) p.scheduler

      sent : Bool → Outcome (Waited Bool × Scheduler Q F)
      sent b =
          let p' : Pool Q F =
            if not b
            then add_queue p.scheduler.num_threads
                (record { scheduler = counted; threads = p.threads; current_id = p.current_id })
            else p in
          send_task lf rounds (some tsk) id p'.scheduler

      none_empty : (qs : List Q) → All Full qs → has_empty_queue is_empty qs ≡ false
      none_empty [] h = refl
      none_empty (q ∷ qs) (h, hs) =
          let off : is_empty q ≡ false = law q ∙ ground arith in
          ap (λ b. if b then true else has_empty_queue is_empty qs) off ∙ none_empty qs hs
