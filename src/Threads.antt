-- ===== src/Threads.antt =====
-- `ithread`, `stop_token` and `stop_token_owner` of include/daw/fs/impl/ithread.h: one thread, the flag
-- that it shares with its tokens, the thread that calls the members of the `ithread`, and the threads
-- that wait on a token. Loads of the flag and the dependency's `atomic_wait` are steps of their own, as
-- in the module Latch. A function that throws ends the program, and is left out.
pub mod Invariant
pub mod Life
pub mod Ends
mod Examples
use function_queue.Prelude.{
  ℕ, Bool, true, false, List, [], ◌∷◌, ◌++◌, map, modify, if◌then◌else◌, ◌==◌, ◌&&◌, foldl,
}
use function_queue.Outcome.{Outcome, returns, throws}
use function_queue.Latch.{Waiter, loading, loaded, blocked, done, wake, wait_step}

-- Where a `std::thread` stands: it can be joined, or was joined or detached.
pub data ThreadState : Type 0 where
  running joined detached : ThreadState

-- Where the new thread is: in its function, behind it and before `on_exit`, or at its end.
pub data Body : Type 0 where
  working leaving ended : Body

-- Where the thread that uses the `ithread` is: outside its members, with how the last of them ended, in
-- `m_continue->wait( )` of `join` (at `m_thread.join( )` when that is done), in the destructor, or
-- behind it.
pub data Call : Type 0 where
  outside : Outcome (Unit {0}) → Call
  in_join : Waiter → Call
  in_destructor : Call
  gone : Call

-- `answers` has what the calls of `request_stop` have returned, the last one first.
pub record Ithread : Type 0 where
  pub keep_going : ℕ
  pub answers : List Bool
  pub body : Body
  pub thread : ThreadState
  pub call : Call
  pub others : List Waiter

-- The constructor.
abbrev pub make_ithread : Ithread
make_ithread = record {
  keep_going = 1;
  answers = [];
  body = working;
  thread = running;
  call = outside (returns tt);
  others = [];
}

abbrev pub set_call : Ithread → Call → Ithread
set_call s c = record {
  keep_going = s.keep_going;
  answers = s.answers;
  body = s.body;
  thread = s.thread;
  call = c;
  others = s.others;
}

abbrev pub set_thread : Ithread → ThreadState → Call → Ithread
set_thread s t c = record {
  keep_going = s.keep_going;
  answers = s.answers;
  body = s.body;
  thread = t;
  call = c;
  others = s.others;
}

abbrev pub set_body : Ithread → Body → Ithread
set_body s b = record {
  keep_going = s.keep_going;
  answers = s.answers;
  body = b;
  thread = s.thread;
  call = s.call;
  others = s.others;
}

abbrev pub set_others : Ithread → List Waiter → Ithread
set_others s ws = record {
  keep_going = s.keep_going;
  answers = s.answers;
  body = s.body;
  thread = s.thread;
  call = s.call;
  others = ws;
}

-- `m_owner.lock( )`. A token that is locked keeps the owner for longer, with its flag down, which
-- gives the same answers.
abbrev pub is_owned : Call → Bool
is_owned (outside o) = true
is_owned (in_join w) = true
is_owned in_destructor = true
is_owned gone = false

-- `stop_token::can_continue`
abbrev pub can_continue : Ithread → Bool
can_continue s = if is_owned s.call then s.keep_going == 1 else false

abbrev pub is_running : ThreadState → Bool
is_running running = true
is_running joined = false
is_running detached = false

-- `ithread::joinable`
abbrev pub joinable : Ithread → Bool
joinable s = s.keep_going == 1 && is_running s.thread

abbrev pub wake_call : Call → Call
wake_call (outside o) = outside o
wake_call (in_join w) = in_join (wake w)
wake_call in_destructor = in_destructor
wake_call gone = gone

-- `stop_token_owner::request_stop`
abbrev pub request_stop : Ithread → Ithread
request_stop s = record {
  keep_going = if s.keep_going == 1 then 0 else s.keep_going;
  answers = (s.keep_going == 1) ∷ s.answers;
  body = s.body;
  thread = s.thread;
  call = wake_call s.call;
  others = map wake s.others;
}

-- `stop_token::stop`, and `ithread::stop`.
abbrev pub stop : Ithread → Ithread
stop s = if is_owned s.call then request_stop s else s

-- The next step of the new thread: its function returns, and then `on_exit` runs.
abbrev pub step_body : Ithread → Body → Ithread
step_body s working = set_body s leaving
step_body s leaving = set_body (stop s) ended
step_body s ended = s

-- `std::thread::join`: it comes back when the thread has ended, and throws if there is none to join.
abbrev pub join_thread : Ithread → ThreadState → Body → Call → Ithread
join_thread s running working after = s
join_thread s running leaving after = s
join_thread s running ended after = set_thread s joined after
join_thread s joined b after = set_call s (outside throws)
join_thread s detached b after = set_call s (outside throws)

-- The next step in `join`: the load and the test of the loop, `atomic_wait`, or `m_thread.join( )`.
abbrev pub step_join : Ithread → Waiter → Ithread
step_join s loading = set_call s (in_join (wait_step s.keep_going loading))
step_join s (loaded current) = set_call s (in_join (wait_step s.keep_going (loaded current)))
step_join s blocked = s
step_join s done = join_thread s s.thread s.body (outside (returns tt))

-- The destructor, behind its `request_stop`. An exception of the join does not get out of it; there
-- is none, since it joins only what is joinable.
abbrev pub step_destructor : Ithread → ThreadState → Ithread
step_destructor s running = join_thread s running s.body gone
step_destructor s joined = set_call s gone
step_destructor s detached = set_call s gone

abbrev pub step_call : Ithread → Call → Ithread
step_call s (outside o) = s
step_call s (in_join w) = step_join s w
step_call s in_destructor = step_destructor s s.thread
step_call s gone = s

-- `std::thread::detach`
abbrev pub detach_thread : Ithread → ThreadState → Ithread
detach_thread s running = set_thread s detached (outside (returns tt))
detach_thread s joined = set_call s (outside throws)
detach_thread s detached = set_call s (outside throws)

-- A member of the `ithread` is called by the thread that uses it, one at a time.
abbrev pub if_outside : Ithread → Call → Ithread → Ithread
if_outside s (outside o) s' = s'
if_outside s (in_join w) s' = s
if_outside s in_destructor s' = s
if_outside s gone s' = s

-- What happens: somebody calls `stop`, on the `ithread` or on a token; the new thread goes on; the user
-- calls `join`, `detach` or the destructor, or goes on in what he has called; somebody calls `wait` on a
-- token, or goes on in it.
pub data Event : Type 0 where
  stops : Event
  body_steps : Event
  joins : Event
  detaches : Event
  destroys : Event
  call_steps : Event
  waits_on_token : Event
  wait_steps : ℕ → Event

unfoldable pub step_ithread : Ithread → Event → Ithread
step_ithread s stops = stop s
step_ithread s body_steps = step_body s s.body
step_ithread s joins = if_outside s s.call (set_call s (in_join loading))
step_ithread s detaches = if_outside s s.call (detach_thread s s.thread)
step_ithread s destroys = if_outside s s.call (set_call (request_stop s) in_destructor)
step_ithread s call_steps = step_call s s.call
step_ithread s waits_on_token =
    if is_owned s.call then set_others s (s.others ++ loading ∷ []) else s
step_ithread s (wait_steps i) = set_others s (modify s.others i (wait_step s.keep_going))

unfoldable pub run_ithread : List Event → Ithread
unfolding step_ithread
run_ithread es = foldl step_ithread make_ithread es
