-- ===== src/Futures/Chaining.antt =====
-- `next` on a future that is set already, in member_data_t of
-- include/daw/fs/impl/future_result_impl.h.
use function_queue.Prelude.{
  ℕ, suc, ◌<◌, ◌≡◌, refl, ap, ◌∙◌, Bool, true, false, List, [], ◌∷◌, ◌++◌, Option, none, some,
  arith, length, get_elem?, set, get_elem?-set_ne, get_elem?-lt, get_elem?-append_length,
  length-set, length-append,
}
use function_queue.Outcome.{Outcome, returns, undefined, ◌>>=◌}
use function_queue.MessageQueue.{Waited, returned}
use function_queue.Latch.{fetch_sub}
use function_queue.Futures.Expected.{Expected, value}
use function_queue.Futures.Member.{
  ready, continued, is_status_ready, take_result, set_value, code, Continuation, then_one, Member,
  World, new_member, put, attach, next, get, run_code, pass_next,
}
use function_queue.Futures.Join.{set_value-open, get-stored}

module _ {ℓ} {A : Type ℓ} where
  -- `next` on a future that is set adds the task of its function, which a worker runs.
  pub next-run :
      (w : World A) (i : ℕ) (m : Member A) (v : A) (func : A → Expected A)
      → get_elem? w.members i ≡ some m
      → m.next ≡ none
      → m.status ≡ ready
      → m.result ≡ some (value v)
      → w.tasks ≡ []
      → (next w i func >>= λ r. run_code r.1 0 >>= λ w'. returns (get w' r.0))
        ≡ returns (returned (take_result (some (func v))))
  unfolding next attach pass_next run_code
  next-run w i m v func at n s e q =
      ap (λ o. o >>= finish)
        (ap found at
          ∙ ap (check_next m) n
          ∙ ap (λ x. pair (status_of (is_status_ready x) m.result)) s
          ∙ ap (λ r. pair (passed r)) e)
      ∙ ap
          (λ ts. finish (j, record { members = members'; tasks = ts ++ code (λ _. func v) j ∷ [] }))
          q
      ∙ ap (λ k. set_value k after j (func v) >>= λ w'. returns (get w' j)) enough
      ∙ ap (λ o. o >>= λ w'. returns (get w' j))
          (set_value-open (length w.members) after j new_member (func v) there refl)
      ∙ ap (λ (g : Waited (Outcome A)). returns g) (get-stored after j new_member (func v) j_lt)
    where
      j : ℕ
      j = length w.members

      c : Continuation A
      c = then_one (record { func = func; target = j })

      bigger : World A
      bigger = record { members = w.members ++ new_member ∷ []; tasks = w.tasks }

      m' : Member A → Member A
      m' k = record { next = some c; count = k.count; status = continued; result = none }

      members' : List (Member A)
      members' = set bigger.members i (m' m)

      after : World A
      after = record { members = members'; tasks = [] }

      i_less : i < j
      i_less = get_elem?-lt w.members i m at

      enough : length members' ≡ suc j
      enough =
          omega
            (arith, length-set bigger.members i (m' m), length-append w.members (new_member ∷ []))

      j_lt : j < length members'
      j_lt = omega (arith, enough)

      there : get_elem? members' j ≡ some new_member
      there =
          get_elem?-set_ne bigger.members i j (m' m) (omega (arith, i_less))
          ∙ get_elem?-append_length w.members new_member []

      finish : ℕ × World A → Outcome (Waited (Outcome A))
      finish r = run_code r.1 0 >>= λ w'. returns (get w' r.0)

      pair : Outcome (World A) → Outcome (ℕ × World A)
      pair o = o >>= λ w'. returns (j, w')

      check_next : Member A → Option (Continuation A) → Outcome (ℕ × World A)
      check_next k o = elim o [ some c' ↦ undefined | none ↦ pair (attach bigger i k c) ]

      found : Option (Member A) → Outcome (ℕ × World A)
      found o = elim o [ none ↦ undefined | some k ↦ check_next k k.next ]

      passed : Option (Expected A) → Outcome (World A)
      passed r = elim r [ none ↦ undefined | some x ↦ pass_next (put bigger i (m' m)) c x ]

      status_of : Bool → Option (Expected A) → Outcome (World A)
      status_of x r = elim x [
        | true ↦ passed r
        | false ↦ returns (
            put bigger i (record {
              next = some c;
              count = fetch_sub m.count;
              status = continued;
              result = m.result;
            }))
      ]
