-- ===== src/Futures/Group.antt =====
-- The future of `future_group_result_t` of include/daw/fs/impl/future_result_impl.h: it shares one latch
-- with the functions of the group and with the task that waits for them and stores their results.
use function_queue.Prelude.{
  ℕ, zero, suc, ◌+◌, ◌≤◌, ◌<◌, ◌≡◌, refl, sym, ap, ◌∙◌, true, false, none, some, arith, length,
  get_elem?-set_self, ◌==◌, if◌then◌else◌,
}
use function_queue.Outcome.{undefined}
use function_queue.MessageQueue.{returned, waiting}
use function_queue.Latch.{fetch_sub}
use function_queue.Latch.Opening.{fetch_sub-pos}
use function_queue.Futures.Expected.{Expected}
use function_queue.Futures.Member.{
  deferred, Member, World, put, store_member, take_result, get, get_of,
}

module _ {ℓ} {A : Type ℓ} where
  -- The future over a latch that counts the functions.
  abbrev pub group_member : ℕ → Member A
  group_member n = record { next = none; count = n; status = deferred; result = none }

  unfoldable pub notify_member : Member A → Member A
  unfolding fetch_sub
  notify_member m = record {
    next = m.next;
    count = fetch_sub m.count;
    status = m.status;
    result = m.result;
  }

  -- So many functions have come to their end; each notifies the latch.
  abbrev pub functions_done : ℕ → Member A → Member A
  functions_done zero m = m
  functions_done (suc k) m = functions_done k (notify_member m)

  -- The end of `th_worker`: `set_value` stores the results and notifies the latch, and the exit from the
  -- scope notifies it once more.
  unfoldable pub finish_group : Expected A → Member A → Member A
  unfolding notify_member
  finish_group e m = notify_member (store_member m e)

  functions_done-counts :
      (k n : ℕ)
      → k ≤ n
      → n < 18446744073709551616
      → (r : ℕ) × (functions_done k (group_member n) ≡ group_member r) × (r + k ≡ n)
  unfolding notify_member
  functions_done-counts zero n l h = (n, refl, omega arith)
  functions_done-counts (suc k) zero l h = absurd (omega arith)
  functions_done-counts (suc k) (suc n) l h =
      let (r, e, c) = functions_done-counts k n (omega arith) (omega arith) in
      let pos = fetch_sub-pos (suc n) (omega arith) h in
      let one : fetch_sub (suc n) ≡ n = omega (arith, pos) in
      (r, ap (λ c. functions_done k (group_member c)) one ∙ e, omega (arith, c))

  -- A call of `get` on the future of a group of `n` functions that is made when `k` of them have run,
  -- and before the task of the group has stored the results, waits if `k` is less than `n`; if all have
  -- run it goes on, and reads a result that nobody has stored yet, since the latch opens before the
  -- results are stored. A call that is made after that task has ended comes back with the results; the
  -- count of the latch is then not 0, so `try_wait` answers no on a future that is ready.
  pub get-functions_done :
      (w : World A) (i n k : ℕ) (e : Expected A)
      → i < length w.members
      → k ≤ n
      → n < 18446744073709551616
      → (get (put w i (functions_done k (group_member n))) i
          ≡ (if k == n then returned undefined else waiting))
        × (get (put w i (finish_group e (functions_done n (group_member n)))) i
            ≡ returned (take_result (some e)))
        × (((finish_group e (functions_done n (group_member n))).count == 0) ≡ false)
  unfolding get finish_group fetch_sub
  get-functions_done w i n k e l le h =
      let (r, done, c) = functions_done-counts k n le h in
      let (r', all, c') = functions_done-counts n n (omega arith) h in
      let none_left : r' ≡ 0 = omega (arith, c') in
      (
        at (functions_done k (group_member n)) ∙ ap (λ m. get_of (some m)) done ∙ looked r c,
        at (finish_group e (functions_done n (group_member n))),
        ap (λ (m : Member A). (finish_group e m).count == 0) (all ∙ ap group_member none_left),
      )
    where
      at : (m : Member A) → get (put w i m) i ≡ get_of (some m)
      at m = ap get_of (get_elem?-set_self w.members i m l)

      looked :
          (r : ℕ)
          → r + k ≡ n
          → get_of (some (group_member r)) ≡ (if k == n then returned undefined else waiting)
      looked zero c =
          let same : (k == n) ≡ true = ground (arith, c) in
          ap (λ b. if b then returned undefined else waiting) (sym same)
      looked (suc r) c =
          let apart : (k == n) ≡ false = ground (arith, c) in
          let closed : (suc r == 0) ≡ false = ground arith in
          ap (λ b. elim b [ false ↦ waiting | true ↦ returned undefined ]) closed
          ∙ ap (λ b. if b then returned undefined else waiting) (sym apart)
