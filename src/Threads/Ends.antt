-- ===== src/Threads/Ends.antt =====
-- How `join` and the destructor of an `ithread` end.
use function_queue.Prelude.{
  ℕ, ◌≡◌, ◌⊎◌, inl, inr, refl, ap, sym, subst, false, List, [], ◌∷◌, foldl, arith, if◌then◌else◌,
  ◌==◌,
}
use function_queue.Outcome.{returns}
use function_queue.Latch.{Waiter, loading, loaded, blocked, done}
use function_queue.Threads.{
  ThreadState, running, joined, detached, Body, ended, Call, outside, in_join, gone, Ithread,
  is_owned, Event, can_continue, is_running, call_steps, step_ithread, run_ithread,
}
use function_queue.Threads.Invariant.{WaiterOk, CallOk, BodyOk, ThreadOk, told}
use function_queue.Threads.Life.{run_ithread-Good}

abbrev parts : Ithread → ℕ → Body → ThreadState → Call → Ithread
parts s k b t c = record {
  keep_going = k;
  answers = s.answers;
  body = b;
  thread = t;
  call = c;
  others = s.others;
}

abbrev Joined : Ithread → Type 0
unfolding step_ithread
Joined s =
    let s' = foldl step_ithread s (call_steps ∷ call_steps ∷ call_steps ∷ []) in
    (s'.thread ≡ joined) × (s'.call ≡ outside (returns tt))

-- A caller of `join` that has not gone to sleep needs three steps at most.
three_steps :
    (s : Ithread) (w : Waiter) → WaiterOk 0 w → Joined (parts s 0 ended running (in_join w))
unfolding Joined step_ithread
three_steps s loading h = (refl, refl)
three_steps s (loaded current) h =
    subst (λ c. Joined (parts s 0 ended running (in_join (loaded c)))) (sym h) (refl, refl)
three_steps s blocked h = absurd (omega (arith, h))
three_steps s done h = (refl, refl)

-- Whatever has happened before: when the thread of an `ithread` has come to its end and was neither
-- joined nor detached, a caller of `join` is not asleep, and is back from it after three steps, with the
-- thread joined.
pub join-ends :
    (es : List Event) (w : Waiter)
    → (run_ithread es).body ≡ ended
    → (run_ithread es).thread ≡ running
    → (run_ithread es).call ≡ in_join w
    → let s = foldl step_ithread (run_ithread es) (call_steps ∷ call_steps ∷ call_steps ∷ []) in
      (s.thread ≡ joined) × (s.call ≡ outside (returns tt))
unfolding Joined step_ithread
join-ends es w b t c =
    let s = run_ithread es in
    let g = run_ithread-Good es in
    let down : s.keep_going ≡ 0 = subst (BodyOk s.keep_going) b g.body_ok in
    let waits : WaiterOk 0 w =
      subst (λ k. WaiterOk k w) down (subst (CallOk s.keep_going s.thread) c g.call_ok) in
    at_parts s (three_steps s w waits) down b t c
  where
    at_parts :
        (s : Ithread)
        → Joined (parts s 0 ended running (in_join w))
        → s.keep_going ≡ 0
        → s.body ≡ ended
        → s.thread ≡ running
        → s.call ≡ in_join w
        → Joined s
    at_parts s j down b t c =
        subst (λ k. Joined (parts s k s.body s.thread s.call)) (sym down)
          (subst (λ x. Joined (parts s 0 x s.thread s.call)) (sym b)
            (subst (λ x. Joined (parts s 0 ended x s.call)) (sym t)
              (subst (λ x. Joined (parts s 0 ended running x)) (sym c) j)))

-- Whatever has happened before: once an `ithread` is destroyed, none of its tokens says that its thread
-- can continue, exactly one call of `request_stop` has been told that it was the one to stop the thread,
-- and the thread was joined after its end, or detached.
pub gone-stopped :
    (es : List Event)
    → (run_ithread es).call ≡ gone
    → (can_continue (run_ithread es) ≡ false)
      × ((run_ithread es).keep_going ≡ 0)
      × (told (run_ithread es).answers ≡ 1)
      × (((run_ithread es).thread ≡ joined) × ((run_ithread es).body ≡ ended)
          ⊎ ((run_ithread es).thread ≡ detached))
gone-stopped es c =
    let s = run_ithread es in
    let g = run_ithread-Good es in
    let (down, left) : (s.keep_going ≡ 0) × (is_running s.thread ≡ false) =
      subst (CallOk s.keep_going s.thread) c g.call_ok in
    (
      ap (λ x. if is_owned x then s.keep_going == 1 else false) c,
      down,
      omega (arith, g.asked, down),
      by_thread s.thread s.body g.thread_ok left,
    )
  where
    by_thread :
        (t : ThreadState) (b : Body)
        → ThreadOk t b
        → is_running t ≡ false
        → ((t ≡ joined) × (b ≡ ended)) ⊎ (t ≡ detached)
    by_thread running b h l = absurd (cc l)
    by_thread joined b h l = inl (refl, h)
    by_thread detached b h l = inr refl
