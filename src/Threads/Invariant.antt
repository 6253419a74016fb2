-- ===== src/Threads/Invariant.antt =====
-- What holds of the flag of an `ithread`, of the threads that wait for it and of the thread itself.
use function_queue.Prelude.{
  ℕ, zero, suc, ◌+◌, ◌≤◌, ◌≡◌, refl, sym, subst, Bool, true, false, List, [], ◌∷◌, map, modify,
  if◌then◌else◌, ◌==◌, All, arith,
}
use function_queue.Latch.{Waiter, loading, loaded, blocked, done, wake, wait_step}
use function_queue.Threads.{
  ThreadState, running, joined, detached, Body, working, leaving, ended, Call, outside, in_join,
  in_destructor, gone, Ithread, set_call, is_owned, is_running, wake_call, request_stop, stop,
}

-- A blocked thread is blocked on a flag that is up, and one that is through has seen it down.
abbrev pub WaiterOk : ℕ → Waiter → Type 0
WaiterOk k loading = Unit
WaiterOk k (loaded current) = current ≡ 1
WaiterOk k blocked = k ≡ 1
WaiterOk k done = k ≡ 0

abbrev pub CallOk : ℕ → ThreadState → Call → Type 0
CallOk k t (outside o) = Unit
CallOk k t (in_join w) = WaiterOk k w
CallOk k t in_destructor = k ≡ 0
CallOk k t gone = (k ≡ 0) × (is_running t ≡ false)

abbrev pub BodyOk : ℕ → Body → Type 0
BodyOk k working = Unit
BodyOk k leaving = Unit
BodyOk k ended = k ≡ 0

abbrev pub ThreadOk : ThreadState → Body → Type 0
ThreadOk running b = Unit
ThreadOk joined b = b ≡ ended
ThreadOk detached b = Unit

-- How many calls of `request_stop` have answered yes.
abbrev pub told : List Bool → ℕ
told [] = 0
told (b ∷ bs) = if b then suc (told bs) else told bs

pub record Good (s : Ithread) : Type 0 where
  pub flag : s.keep_going ≤ 1
  pub asked : told s.answers + s.keep_going ≡ 1
  pub body_ok : BodyOk s.keep_going s.body
  pub thread_ok : ThreadOk s.thread s.body
  pub call_ok : CallOk s.keep_going s.thread s.call
  pub others_ok : All (WaiterOk s.keep_going) s.others

pub wait_step-Ok : (k : ℕ) (w : Waiter) → k ≤ 1 → WaiterOk k w → WaiterOk k (wait_step k w)
wait_step-Ok k loading l h = by_test (k == 0) refl
  where
    by_test : (b : Bool) → (k == 0) ≡ b → WaiterOk k (if b then done else loaded k)
    by_test true e = ground (arith, e)
    by_test false e = ground (arith, e, l)
wait_step-Ok k (loaded current) l h = by_test (k == current) refl
  where
    by_test : (b : Bool) → (k == current) ≡ b → WaiterOk k (if b then blocked else loading)
    by_test true e = ground (arith, e, h)
    by_test false e = tt
wait_step-Ok k blocked l h = h
wait_step-Ok k done l h = h

wake-Ok : (k : ℕ) (w : Waiter) → k ≤ 1 → WaiterOk k w → WaiterOk 0 (wake w)
wake-Ok k loading l h = tt
wake-Ok k (loaded current) l h = h
wake-Ok k blocked l h = tt
wake-Ok k done l h = refl

All-wake : (k : ℕ) (ws : List Waiter) → k ≤ 1 → All (WaiterOk k) ws → All (WaiterOk 0) (map wake ws)
All-wake k [] l h = tt
All-wake k (w ∷ ws) l (h, hs) = (wake-Ok k w l h, All-wake k ws l hs)

pub All-modify :
    (k : ℕ) (ws : List Waiter) (i : ℕ)
    → k ≤ 1
    → All (WaiterOk k) ws
    → All (WaiterOk k) (modify ws i (wait_step k))
All-modify k [] i l h = tt
All-modify k (w ∷ ws) zero l (h, hs) = (wait_step-Ok k w l h, hs)
All-modify k (w ∷ ws) (suc i) l (h, hs) = (h, All-modify k ws i l hs)

wake_call-Ok :
    (k : ℕ) (t : ThreadState) (c : Call) → k ≤ 1 → CallOk k t c → CallOk 0 t (wake_call c)
wake_call-Ok k t (outside o) l h = tt
wake_call-Ok k t (in_join w) l h = wake-Ok k w l h
wake_call-Ok k t in_destructor l h = refl
wake_call-Ok k t gone l h = (refl, h.1)

pub set_call-Good :
    (s : Ithread) (c : Call) → Good s → CallOk s.keep_going s.thread c → Good (set_call s c)
set_call-Good s c g h = record {
  flag = g.flag;
  asked = g.asked;
  body_ok = g.body_ok;
  thread_ok = g.thread_ok;
  call_ok = h;
  others_ok = g.others_ok;
}

body_down : (k : ℕ) (b : Body) → BodyOk k b → BodyOk 0 b
body_down k working h = tt
body_down k leaving h = tt
body_down k ended h = refl

-- The flag is down.
unfoldable pub Stopped : Ithread → Type 0
Stopped s = Good s × (s.keep_going ≡ 0)

pub request_stop-Good : (s : Ithread) → Good s → Stopped (request_stop s)
unfolding Stopped
request_stop-Good s g = (
  record {
    flag = omega (arith, down);
    asked = ground (arith, g.flag, g.asked);
    body_ok = at_zero (λ k. BodyOk k s.body) (body_down s.keep_going s.body g.body_ok);
    thread_ok = g.thread_ok;
    call_ok =
        at_zero (λ k. CallOk k s.thread (wake_call s.call))
          (wake_call-Ok s.keep_going s.thread s.call g.flag g.call_ok);
    others_ok =
        at_zero (λ k. All (WaiterOk k) (map wake s.others))
          (All-wake s.keep_going s.others g.flag g.others_ok);
  },
  down,
)
  where
    down : (request_stop s).keep_going ≡ 0
    down = ground (arith, g.flag)

    at_zero : (P : ℕ → Type 0) → P 0 → P (request_stop s).keep_going
    at_zero P h = subst P (sym down) h

pub stop-Good : (s : Ithread) → Good s → Stopped (stop s)
unfolding Stopped
stop-Good s g = by_call s.call g.call_ok
  where
    by_call :
        (c : Call)
        → CallOk s.keep_going s.thread c
        → Stopped (if is_owned c then request_stop s else s)
    by_call (outside o) h = request_stop-Good s g
    by_call (in_join w) h = request_stop-Good s g
    by_call in_destructor h = request_stop-Good s g
    by_call gone h = (g, h.0)
