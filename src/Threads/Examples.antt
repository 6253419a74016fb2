-- ===== src/Threads/Examples.antt =====
-- Runs of an `ithread`.
use function_queue.Prelude.{◌≡◌, ◌⊎◌, refl, false, List, [], ◌∷◌, foldl}
use function_queue.Outcome.{returns, throws}
use function_queue.Latch.{loading, blocked}
use function_queue.Threads.{
  joined, detached, ended, outside, in_join, Event, body_steps, stops, joins, destroys, call_steps,
  can_continue, joinable, step_ithread, run_ithread,
}
use function_queue.Threads.Invariant.{told}
use function_queue.Threads.Ends.{join-ends, gone-stopped}

-- `join` goes to sleep before the function returns, and is woken by `on_exit`.
abbrev slept : List Event
slept = joins ∷ call_steps ∷ call_steps ∷ body_steps ∷ []

slept_run : (run_ithread slept).call ≡ in_join blocked
unfolding run_ithread step_ithread
slept_run = refl

abbrev woken : List Event
woken = joins ∷ call_steps ∷ call_steps ∷ body_steps ∷ body_steps ∷ []

join-ends_example :
    let s = foldl step_ithread (run_ithread woken) (call_steps ∷ call_steps ∷ call_steps ∷ []) in
    (s.thread ≡ joined) × (s.call ≡ outside (returns tt))
unfolding run_ithread step_ithread
join-ends_example = join-ends woken loading refl refl refl

-- The destructor waits for the thread.
abbrev destroyed : List Event
destroyed = destroys ∷ call_steps ∷ body_steps ∷ body_steps ∷ call_steps ∷ []

gone-stopped_example :
    (can_continue (run_ithread destroyed) ≡ false)
    × ((run_ithread destroyed).keep_going ≡ 0)
    × (told (run_ithread destroyed).answers ≡ 1)
    × (((run_ithread destroyed).thread ≡ joined) × ((run_ithread destroyed).body ≡ ended)
        ⊎ ((run_ithread destroyed).thread ≡ detached))
unfolding run_ithread step_ithread
gone-stopped_example = gone-stopped destroyed refl

-- A thread that has been joined cannot be joined again.
twice_run :
    (run_ithread (
      body_steps ∷ body_steps ∷ joins ∷ call_steps ∷ call_steps ∷ joins ∷ call_steps ∷ call_steps
      ∷ [])).call
    ≡ outside throws
unfolding run_ithread step_ithread
twice_run = refl

-- After `stop`, `joinable` says no of a thread that was neither joined nor detached.
stopped_run : joinable (run_ithread (stops ∷ [])) ≡ false
unfolding run_ithread step_ithread
stopped_run = refl
