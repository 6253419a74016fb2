-- ===== src/Futures/Callers.antt =====
-- The callers of `get` on one future, in `member_data_members::wait` and `member_data_t::set_value` of
-- include/daw/fs/impl/future_result_impl.h, with the latch of the future in
-- include/daw/fs/impl/daw_latch.h.
use function_queue.Prelude.{ℕ, zero, suc, ◌≡◌, List, [], ◌∷◌, ◌++◌, modify, ◌==◌, if◌then◌else◌}
use function_queue.Latch.{Waiter, loading, loaded, blocked, done, wait_step, notify}
use function_queue.Futures.Expected.{Expected}
use function_queue.Futures.Member.{is_status_ready, Member, new_member, store_member}

-- A future, and the threads that are in `wait` of its latch or have come out of it.
pub record Calls {ℓ} (A : Type ℓ) : Type ℓ where
  pub member : Member A
  pub callers : List Waiter

-- Another thread calls `get`, or caller `i` makes a step.
pub data Event : Type 0 where
  comes : Event
  goes : ℕ → Event

-- How many steps caller `i` makes.
abbrev pub steps_of : ℕ → List Event → ℕ
steps_of i [] = 0
steps_of i (comes ∷ es) = steps_of i es
steps_of i (goes j ∷ es) = if i == j then suc (steps_of i es) else steps_of i es

-- The waits of a caller that makes `n` steps while the count stays the same.
abbrev turns : ℕ → ℕ → Waiter → Waiter
turns count zero w = w
turns count (suc n) w = turns count n (wait_step count w)

-- A caller before the count of 1 has changed.
abbrev Early : Waiter → Type 0
Early loading = Unit
Early (loaded current) = current ≡ 1
Early blocked = Unit
Early done = ⊥

-- What becomes of a caller when the future has been set and he has made steps enough.
abbrev pub settled : Waiter → Waiter
settled loading = done
settled (loaded current) = done
settled blocked = blocked
settled done = done

module _ {ℓ} {A : Type ℓ} where
  -- `wait` only goes to the latch if the future is not ready.
  abbrev pub enter_wait : Member A → Waiter
  enter_wait m = if is_status_ready m.status then done else loading

  unfoldable pub event : Calls A → Event → Calls A
  event c comes = record { member = c.member; callers = c.callers ++ enter_wait c.member ∷ [] }
  event c (goes i) = record {
    member = c.member;
    callers = modify c.callers i (wait_step c.member.count);
  }

  -- `set_value` on a future without a continuation, whose last step notifies the latch.
  unfoldable pub sets : Calls A → Expected A → Calls A
  unfolding notify
  sets c e = record {
    member = store_member c.member e;
    callers = (notify (record { count = c.member.count; waiters = c.callers })).waiters;
  }

  -- A future as it is constructed, before anyone has called `get`.
  abbrev pub new_calls : Calls A
  new_calls = record { member = new_member; callers = [] }
