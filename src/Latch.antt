-- ===== src/Latch.antt =====
-- `latch` of include/daw/fs/impl/daw_latch.h: its count, a signed number of 64 bits that wraps around,
-- and the threads that are in `wait`. `atomic_wait`, a dependency, blocks a thread while the count has
-- the value that the thread has seen, and a blocked thread goes on only when it is notified.
pub mod Opening
pub mod Deadline
pub mod Handles
mod Examples
use function_queue.Prelude.{
  ℕ, zero, suc, ◌+◌, ◌%◌, Bool, true, false, List, [], ◌∷◌, map, modify, Option, none, some,
  if◌then◌else◌, ◌==◌,
}

-- A thread in `wait`: about to load the count, with the value it has loaded, blocked, or done.
pub data Waiter : Type 0 where
  loading : Waiter
  loaded : ℕ → Waiter
  blocked : Waiter
  done : Waiter

pub record Latch : Type 0 where
  pub count : ℕ
  pub waiters : List Waiter

abbrev pub wake : Waiter → Waiter
wake loading = loading
wake (loaded current) = loaded current
wake blocked = loading
wake done = done

-- `atomic_notify_one`: the first blocked thread, as good as any other.
abbrev pub wake_one : List Waiter → List Waiter
wake_one [] = []
wake_one (loading ∷ ws) = loading ∷ wake_one ws
wake_one (loaded current ∷ ws) = loaded current ∷ wake_one ws
wake_one (blocked ∷ ws) = loading ∷ ws
wake_one (done ∷ ws) = done ∷ wake_one ws

-- `fetch_sub( 1 )` and `fetch_add( 1 )`; -1 is the greatest number.
unfoldable pub fetch_sub : ℕ → ℕ
fetch_sub count = (count + 18446744073709551615) % 18446744073709551616

unfoldable pub fetch_add : ℕ → ℕ
fetch_add count = (count + 1) % 18446744073709551616

unfoldable pub reset : ℕ → Latch → Latch
reset count l = record { count = count; waiters = l.waiters }

unfoldable pub add_notifier : Latch → Latch
unfolding fetch_add
add_notifier l = record { count = fetch_add l.count; waiters = l.waiters }

unfoldable pub notify : Latch → Latch
unfolding fetch_sub
notify l = record {
  count = fetch_sub l.count;
  waiters = if l.count == 0 then map wake l.waiters else l.waiters;
}

unfoldable pub notify_one : Latch → Latch
unfolding fetch_sub
notify_one l = record {
  count = fetch_sub l.count;
  waiters = if l.count == 0 then wake_one l.waiters else l.waiters;
}

unfoldable pub try_wait : Latch → Bool
try_wait l = l.count == 0

-- One step of a thread in `wait`: the load with the test of the loop, and then `atomic_wait`.
abbrev pub wait_step : ℕ → Waiter → Waiter
wait_step count loading = if count == 0 then done else loaded count
wait_step count (loaded current) = if count == current then blocked else loading
wait_step count blocked = blocked
wait_step count done = done

-- The steps of the threads that share a latch, in the order in which they happen.
pub data Step : Type 0 where
  adds : Step
  notifies : Step
  notifies_one : Step
  waits : ℕ → Step

unfoldable pub step : Latch → Step → Latch
unfolding add_notifier notify notify_one
step l adds = add_notifier l
step l notifies = notify l
step l notifies_one = notify_one l
step l (waits i) = record { count = l.count; waiters = modify l.waiters i (wait_step l.count) }
