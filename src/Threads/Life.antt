-- ===== src/Threads/Life.antt =====
-- What holds of an `ithread` in whatever order its steps, those of its thread and those of the threads
-- that wait on its tokens happen.
use function_queue.Prelude.{
  ◌≡◌, refl, ap, Bool, true, false, List, [], ◌∷◌, ◌++◌, modify, if◌then◌else◌, foldl, All,
  All-append, arith,
}
use function_queue.Outcome.{returns, throws}
use function_queue.Latch.{Waiter, loading, loaded, blocked, done, wait_step}
use function_queue.Threads.{
  ThreadState, running, joined, detached, Body, working, leaving, ended, Call, outside, in_join,
  in_destructor, gone, Ithread, make_ithread, set_call, set_thread, set_body, set_others, is_owned,
  is_running, request_stop, stop, step_body, join_thread, step_destructor, step_call, detach_thread,
  if_outside, Event, stops, body_steps, joins, detaches, destroys, call_steps, waits_on_token,
  wait_steps, step_ithread, run_ithread,
}
use function_queue.Threads.Invariant.{
  WaiterOk, CallOk, BodyOk, ThreadOk, Good, Stopped, wait_step-Ok, All-modify, set_call-Good,
  request_stop-Good, stop-Good,
}

set_body-Good :
    (s : Ithread) (b : Body)
    → Good s
    → BodyOk s.keep_going b
    → ThreadOk s.thread b
    → Good (set_body s b)
set_body-Good s b g h t = record {
  flag = g.flag;
  asked = g.asked;
  body_ok = h;
  thread_ok = t;
  call_ok = g.call_ok;
  others_ok = g.others_ok;
}

set_thread-Good :
    (s : Ithread) (t : ThreadState) (c : Call)
    → Good s
    → ThreadOk t s.body
    → CallOk s.keep_going t c
    → Good (set_thread s t c)
set_thread-Good s t c g h k = record {
  flag = g.flag;
  asked = g.asked;
  body_ok = g.body_ok;
  thread_ok = h;
  call_ok = k;
  others_ok = g.others_ok;
}

set_others-Good :
    (s : Ithread) (ws : List Waiter)
    → Good s
    → All (WaiterOk s.keep_going) ws
    → Good (set_others s ws)
set_others-Good s ws g h = record {
  flag = g.flag;
  asked = g.asked;
  body_ok = g.body_ok;
  thread_ok = g.thread_ok;
  call_ok = g.call_ok;
  others_ok = h;
}

moves_on : (t : ThreadState) (b b' : Body) → ThreadOk t b → (b ≡ ended → b' ≡ ended) → ThreadOk t b'
moves_on running b b' h f = tt
moves_on joined b b' h f = f h
moves_on detached b b' h f = tt

step_body-Good : (s : Ithread) (b : Body) → s.body ≡ b → Good s → Good (step_body s b)
unfolding Stopped
step_body-Good s working e g =
    set_body-Good s leaving g tt
      (moves_on s.thread s.body leaving g.thread_ok (λ f. absurd (cc (e, f))))
step_body-Good s leaving e g =
    let (g', down) = stop-Good s g in
    set_body-Good (stop s) ended g' down
      (moves_on (stop s).thread (stop s).body ended g'.thread_ok (λ f. refl))
step_body-Good s ended e g = g

join_thread-Good :
    (s : Ithread) (t : ThreadState) (b : Body) (after : Call)
    → s.body ≡ b
    → Good s
    → CallOk s.keep_going joined after
    → Good (join_thread s t b after)
join_thread-Good s running working after e g h = g
join_thread-Good s running leaving after e g h = g
join_thread-Good s running ended after e g h = set_thread-Good s joined after g e h
join_thread-Good s joined b after e g h = set_call-Good s (outside throws) g tt
join_thread-Good s detached b after e g h = set_call-Good s (outside throws) g tt

step_destructor-Good :
    (s : Ithread) (t : ThreadState)
    → s.thread ≡ t
    → s.keep_going ≡ 0
    → Good s
    → Good (step_destructor s t)
step_destructor-Good s running e d g = join_thread-Good s running s.body gone refl g (d, refl)
step_destructor-Good s joined e d g = set_call-Good s gone g (d, ap is_running e)
step_destructor-Good s detached e d g = set_call-Good s gone g (d, ap is_running e)

step_call-Good :
    (s : Ithread) (c : Call) → CallOk s.keep_going s.thread c → Good s → Good (step_call s c)
step_call-Good s (outside o) h g = g
step_call-Good s (in_join loading) h g =
    set_call-Good s (in_join (wait_step s.keep_going loading)) g
      (wait_step-Ok s.keep_going loading g.flag h)
step_call-Good s (in_join (loaded current)) h g =
    set_call-Good s (in_join (wait_step s.keep_going (loaded current))) g
      (wait_step-Ok s.keep_going (loaded current) g.flag h)
step_call-Good s (in_join blocked) h g = g
step_call-Good s (in_join done) h g =
    join_thread-Good s s.thread s.body (outside (returns tt)) refl g tt
step_call-Good s in_destructor h g = step_destructor-Good s s.thread refl h g
step_call-Good s gone h g = g

detach_thread-Good : (s : Ithread) (t : ThreadState) → Good s → Good (detach_thread s t)
detach_thread-Good s running g = set_thread-Good s detached (outside (returns tt)) g tt tt
detach_thread-Good s joined g = set_call-Good s (outside throws) g tt
detach_thread-Good s detached g = set_call-Good s (outside throws) g tt

if_outside-Good :
    (s : Ithread) (c : Call) (s' : Ithread) → Good s → Good s' → Good (if_outside s c s')
if_outside-Good s (outside o) s' g g' = g'
if_outside-Good s (in_join w) s' g g' = g
if_outside-Good s in_destructor s' g g' = g
if_outside-Good s gone s' g g' = g

step_ithread-Good : (s : Ithread) (e : Event) → Good s → Good (step_ithread s e)
unfolding step_ithread Stopped
step_ithread-Good s stops g = (stop-Good s g).0
step_ithread-Good s body_steps g = step_body-Good s s.body refl g
step_ithread-Good s joins g =
    if_outside-Good s s.call (set_call s (in_join loading)) g
      (set_call-Good s (in_join loading) g tt)
step_ithread-Good s detaches g =
    if_outside-Good s s.call (detach_thread s s.thread) g (detach_thread-Good s s.thread g)
step_ithread-Good s destroys g =
    let (g', down) = request_stop-Good s g in
    if_outside-Good s s.call (set_call (request_stop s) in_destructor) g
      (set_call-Good (request_stop s) in_destructor g' down)
step_ithread-Good s call_steps g = step_call-Good s s.call g.call_ok g
step_ithread-Good s waits_on_token g = by_owned (is_owned s.call)
  where
    by_owned : (b : Bool) → Good (if b then set_others s (s.others ++ loading ∷ []) else s)
    by_owned true =
        set_others-Good s (s.others ++ loading ∷ []) g
          (All-append (WaiterOk s.keep_going) s.others (loading ∷ []) g.others_ok (tt, tt))
    by_owned false = g
step_ithread-Good s (wait_steps i) g =
    set_others-Good s (modify s.others i (wait_step s.keep_going)) g
      (All-modify s.keep_going s.others i g.flag g.others_ok)

steps-Good : (s : Ithread) (es : List Event) → Good s → Good (foldl step_ithread s es)
steps-Good s [] g = g
steps-Good s (e ∷ es) g = steps-Good (step_ithread s e) es (step_ithread-Good s e g)

pub run_ithread-Good : (es : List Event) → Good (run_ithread es)
unfolding run_ithread
run_ithread-Good es = steps-Good make_ithread es (record {
  flag = omega arith;
  asked = refl;
  body_ok = tt;
  thread_ok = tt;
  call_ok = tt;
  others_ok = tt;
})
