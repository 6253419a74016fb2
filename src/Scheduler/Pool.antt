-- ===== src/Scheduler/Pool.antt =====
-- The threads of a `task_scheduler`: `start`, `stop`, `add_queue` and `wait_for_scope` of
-- src/task_scheduler.cpp and include/daw/fs/task_scheduler.h, with `ithread` of
-- include/daw/fs/impl/ithread.h. A thread is taken to come to its end once it has been told to stop.
use function_queue.Prelude.{
  ℕ, zero, suc, ◌+◌, ◌≡◌, sym, ap, ◌∙◌, Bool, true, false, not, List, [], ◌∷◌, ◌++◌, map, replicate,
  if◌then◌else◌, All, range_from, append-nil, append_assoc,
}
use function_queue.Outcome.{Outcome, returns, throws, undefined, ◌>>=◌}
use function_queue.MessageQueue.{Waited, returned, waiting}
use function_queue.Threads.{ThreadState, running, joined, detached}
use function_queue.Scheduler.{Scheduler}

-- `ithread`, with `m_keep_going` of its `stop_token_owner`, and the id that its worker has.
pub record Thread : Type 0 where
  pub id : ℕ
  pub keep_going : Bool
  pub state : ThreadState

-- `request_stop`: was the thread going on?
abbrev pub request_stop : Thread → Bool × Thread
request_stop t = (t.keep_going, record { id = t.id; keep_going = false; state = t.state })

-- `stop`
abbrev pub stop_thread : Thread → Thread
stop_thread t = (request_stop t).1

-- `std::thread::join`: it throws on a thread that cannot be joined.
abbrev pub join_thread : Thread → ThreadState → Outcome Thread
join_thread t running = returns (record { id = t.id; keep_going = t.keep_going; state = joined })
join_thread t joined = throws
join_thread t detached = throws

-- `join`: it waits until the thread has been told to stop.
unfoldable pub join : Thread → Waited (Outcome Thread)
join t = if t.keep_going then waiting else returned (join_thread t t.state)

abbrev pub stop_and_wait : Thread → Waited (Outcome Thread)
unfolding join
stop_and_wait t = join (stop_thread t)

abbrev pub detach_thread : Thread → ThreadState → Outcome Thread
detach_thread t running =
    returns (record { id = t.id; keep_going = t.keep_going; state = detached })
detach_thread t joined = throws
detach_thread t detached = throws

-- `detach`
abbrev pub detach : Thread → Outcome Thread
detach t = detach_thread t t.state

-- A scheduler with its threads. `m_current_id` gives the temporary workers their ids.
pub record Pool {ℓ κ} (Q : Type κ) (F : Type ℓ) : Type (ℓ ⊔ κ) where
  pub scheduler : Scheduler Q F
  pub threads : List Thread
  pub current_id : ℕ

-- The body of the loop of `stop` for one thread; an exception is swallowed, and leaves the thread as
-- it was. (Waiting does not happen: the thread has been told to stop.)
abbrev pub kept : Thread → Outcome Thread → Thread
kept t (returns t') = t'
kept t throws = t
kept t undefined = t

unfoldable pub stop_one : Bool → Thread → Thread
unfolding join
stop_one block t =
    if block
    then elim (stop_and_wait t) [ waiting ↦ stop_thread t | returned o ↦ kept (stop_thread t) o ]
    else kept t (detach t >>= λ t'. returns (stop_thread t'))

-- A thread that has been told to stop and belongs to nobody.
pub record Ended (block : Bool) (t : Thread) : Type 0 where
  pub told : t.keep_going ≡ false
  pub left : t.state ≡ (if block then joined else detached)

pub record Fresh (t : Thread) : Type 0 where
  pub going : t.keep_going ≡ true
  pub runs : t.state ≡ running

-- What `start` adds.
abbrev workers : ℕ → ℕ → List Thread
workers n rounds =
    map (λ n. record { id = n; keep_going = true; state = running }) (range_from n rounds)

stop_one-Ended : (block : Bool) (t : Thread) → Fresh t → Ended block (stop_one block t)
unfolding stop_one
stop_one-Ended true t h = record {
  told = ap (λ s. (kept (stop_thread t) (join_thread (stop_thread t) s)).keep_going) h.runs;
  left = ap (λ s. (kept (stop_thread t) (join_thread (stop_thread t) s)).state) h.runs;
}
stop_one-Ended false t h = record {
  told =
      ap (λ s. (kept t (detach_thread t s >>= λ t'. returns (stop_thread t'))).keep_going) h.runs;
  left = ap (λ s. (kept t (detach_thread t s >>= λ t'. returns (stop_thread t'))).state) h.runs;
}

map-Ended :
    (block : Bool) (ts : List Thread) → All Fresh ts → All (Ended block) (map (stop_one block) ts)
map-Ended block [] h = tt
map-Ended block (t ∷ ts) (h, hs) = (stop_one-Ended block t h, map-Ended block ts hs)

-- `has_empty_queue`, with `is_empty` of the queues.
abbrev pub has_empty_queue {κ} : {Q : Type κ} → (Q → Bool) → List Q → Bool
has_empty_queue is_empty [] = false
has_empty_queue is_empty (q ∷ qs) = if is_empty q then true else has_empty_queue is_empty qs

module _ {ℓ κ} {Q : Type κ} {F : Type ℓ} where
  -- The constructor of `task_scheduler_impl`: one queue for each thread, and nothing runs.
  unfoldable pub make_ts : Q → ℕ → Pool Q F
  make_ts no_tasks num_threads = record {
    scheduler = record {
      tasks = replicate num_threads no_tasks;
      num_threads = num_threads;
      continue = false;
      task_count = 0;
      ran = [];
    };
    threads = [];
    current_id = 0;
  }

  abbrev pub started : Pool Q F → Bool
  started p = p.scheduler.continue

  abbrev pub set_continue : Bool → Scheduler Q F → Scheduler Q F
  set_continue b s = record {
    tasks = s.tasks;
    num_threads = s.num_threads;
    continue = b;
    task_count = s.task_count;
    ran = s.ran;
  }

  abbrev pub set_num_threads : ℕ → Scheduler Q F → Scheduler Q F
  set_num_threads n s = record {
    tasks = s.tasks;
    num_threads = n;
    continue = s.continue;
    task_count = s.task_count;
    ran = s.ran;
  }

  -- `add_queue` adds a thread, and no queue.
  abbrev pub add_queue : ℕ → Pool Q F → Pool Q F
  add_queue n p = record {
    scheduler = p.scheduler;
    threads = p.threads ++ record { id = n; keep_going = true; state = running } ∷ [];
    current_id = p.current_id;
  }

  -- `for( size_t n = 0; n < m_num_threads; ++n )` with `rounds` rounds to go.
  abbrev pub add_queues : ℕ → ℕ → Pool Q F → Pool Q F
  add_queues n zero p = p
  add_queues n (suc rounds) p = add_queues (suc n) rounds (add_queue n p)

  unfoldable pub start : Pool Q F → Pool Q F
  start p =
      if started p
      then p
      else add_queues 0 p.scheduler.num_threads (record {
        scheduler = set_continue true p.scheduler;
        threads = p.threads;
        current_id = p.current_id;
      })

  -- `stop`, with the threads that are cleared.
  unfoldable pub stop : Bool → Pool Q F → Pool Q F × List Thread
  unfolding stop_one
  stop block p = (
    record { scheduler = set_continue false p.scheduler; threads = []; current_id = p.current_id },
    map (stop_one block) p.threads,
  )

  add_queues-workers :
      (n rounds : ℕ) (p : Pool Q F)
      → add_queues n rounds p ≡ record {
        scheduler = p.scheduler;
        threads = p.threads ++ workers n rounds;
        current_id = p.current_id;
      }
  add_queues-workers n zero p =
      ap (λ ts. record { scheduler = p.scheduler; threads = ts; current_id = p.current_id })
        (sym (append-nil p.threads))
  add_queues-workers n (suc rounds) p =
      add_queues-workers (suc n) rounds (add_queue n p)
      ∙ ap (λ ts. record { scheduler = p.scheduler; threads = ts; current_id = p.current_id })
          (append_assoc p.threads (record { id = n; keep_going = true; state = running } ∷ [])
            (workers (suc n) rounds))

  -- `stop` on a scheduler whose threads have not been told to stop tells each of them, and joins or
  -- detaches each of them, as it is asked to. `start` afterwards gives one new worker for each number
  -- below `m_num_threads`, and keeps the queues and what is in them.
  pub start-stop :
      (block : Bool) (p : Pool Q F)
      → All Fresh p.threads
      → All (Ended block) (stop block p).1
        × (start (stop block p).0 ≡ record {
          scheduler = set_continue true p.scheduler;
          threads = workers 0 p.scheduler.num_threads;
          current_id = p.current_id;
        })
  unfolding stop start
  start-stop block p h = (
    map-Ended block p.threads h,
    add_queues-workers 0 p.scheduler.num_threads (record {
      scheduler = set_continue true p.scheduler;
      threads = [];
      current_id = p.current_id;
    }),
  )

  -- What `wait_for_scope` does before it calls its function: when no queue is empty it adds a thread and
  -- counts it, and it starts a temporary worker. The number of the worker is the first result.
  unfoldable pub enter_scope : (Q → Bool) → Pool Q F → ℕ × Pool Q F
  enter_scope is_empty p =
      let n = p.scheduler.num_threads in
      let p' : Pool Q F =
        if not (has_empty_queue is_empty p.scheduler.tasks)
        then add_queue n (record {
          scheduler = set_num_threads (n + 1) p.scheduler;
          threads = p.threads;
          current_id = p.current_id;
        })
        else p in
      (
        p'.current_id,
        record { scheduler = p'.scheduler; threads = p'.threads; current_id = p'.current_id + 1 },
      )

  -- `wait_for_scope`; the temporary worker has gone when it returns.
  unfoldable pub wait_for_scope {μ} :
      {R : Type μ} → (Q → Bool) → (Pool Q F → R × Pool Q F) → Pool Q F → R × Pool Q F
  unfolding enter_scope
  wait_for_scope is_empty func p = func (enter_scope is_empty p).1
