-- ===== src/Futures/Steps.antt =====
-- Each operation on futures comes to an end and keeps the invariant.
use function_queue.Prelude.{
  ℕ, ◌<◌, ◌≡◌, inl, refl, ap, ◌∙◌, Bool, true, false, List, [], ◌∷◌, ◌++◌, Option, none, some,
  arith, length, get_elem?, All-append, get_elem?-set_self, get_elem?-lt, length-append,
}
use function_queue.Outcome.{Outcome, returns, undefined, ◌>>=◌}
use function_queue.Latch.{fetch_sub}
use function_queue.Futures.Expected.{Expected, value, exception, and_then}
use function_queue.Futures.Member.{
  continued, is_status_ready, Branch, Continuation, then_one, CodeTask, code, Member, World,
  new_member, put, tasks_of, pass_next, make_future_result, attach, next,
}
use function_queue.Futures.Invariant.{
  MemberOk, is_deferred, is_ready, is_continued, TaskOk, Producer, by_task, by_future, Inv, settle,
}
use function_queue.Futures.Delivery.{Aimed-right, Aimed-more}
use function_queue.Futures.Delivered.{pass_value}
use function_queue.Futures.SetValue.{pass_exception, set_value-Delivers}
use function_queue.Futures.Growth.{
  get_elem?-append_left, raise, raise_ne, grown, grown-Inv, release-Inv, chain-Inv,
}

module _ {ℓ} {A : Type ℓ} (den : ℕ → Expected A) where
  add_task-Inv :
      (w : World A) (held : List (CodeTask A)) (unset : ℕ → Bool) (t : CodeTask A)
      → Inv den w held unset
      → TaskOk den (length w.members) t
      → Inv den (record { members = w.members; tasks = w.tasks ++ t ∷ [] }) held unset
  add_task-Inv w held unset t inv ok = record {
    members_ok = inv.members_ok;
    tasks_ok = All-append (TaskOk den (length w.members)) w.tasks (t ∷ []) inv.tasks_ok (ok, tt);
    produced = λ j l h. again j (inv.produced j l h);
  }
    where
      again :
          (j : ℕ)
          → Producer w held unset j
          → Producer (record { members = w.members; tasks = w.tasks ++ t ∷ [] }) held unset j
      again j (by_task a) = by_task (Aimed-more j held w.tasks (t ∷ []) a)
      again j (by_future i k c l h nx b u) = by_future i k c l h nx b u

  pub make_future_result-Inv :
      (w : World A) (unset : ℕ → Bool) (func : Unit {0} → Expected A)
      → Inv den w [] unset
      → func tt ≡ den (length w.members)
      → (unset' : ℕ → Bool) × Inv den (make_future_result w func).1 [] unset'
  unfolding make_future_result
  make_future_result-Inv w unset func inv e =
      let n = length w.members in
      let inv' =
        add_task-Inv (grown den w) (code func n ∷ []) (raise unset n) (code func n)
          (grown-Inv den w [] unset func inv)
          (omega (arith, length-append w.members (new_member ∷ [])), e) in
      (
        raise unset n,
        release-Inv den (make_future_result w func).1 [] (raise unset n) func n inv'
            (λ h. by_task (Aimed-right n w.tasks (code func n ∷ []) (inl refl))),
      )

  -- A ready future passes on what it holds.
  pass_next-Inv :
      (w : World A) (unset : ℕ → Bool) (f : Unit {0} → Expected A) (i : ℕ) (m : Member A)
      (b : Branch A)
      → Inv den w (code f b.target ∷ []) unset
      → get_elem? w.members i ≡ some m
      → m.next ≡ some (then_one b)
      → (e : Expected A) → den i ≡ e
      → (w' : World A) × (unset' : ℕ → Bool) × (pass_next w (then_one b) e ≡ returns w')
        × Inv den w' [] unset'
  unfolding pass_next
  pass_next-Inv w unset f i m b inv at n (value v) e =
      let d = pass_value den (code f b.target ∷ []) w unset i m (then_one b) v inv at n e in
      (
        passed,
        settle unset i,
        refl,
        release-Inv den passed [] (settle unset i) f b.target d.inv
            (λ h. by_task (Aimed-right b.target w.tasks (tasks_of (then_one b) v) (inl refl))),
      )
    where
      passed : World A
      passed = record { members = w.members; tasks = w.tasks ++ tasks_of (then_one b) v }
  pass_next-Inv w unset f i m b inv at n exception e =
      let fuel = length w.members in
      let (w', u', ran, d, off, offs) =
        pass_exception den (code f b.target ∷ []) fuel
          (set_value-Delivers den (code f b.target ∷ []) fuel) w unset i m (then_one b) inv at n e
          (omega arith) in
      (
        w',
        u',
        ran,
        release-Inv den w' [] u' f b.target d.inv (λ h. absurd (cc (h, offs b.target (inl refl)))),
      )

  -- `next` on a future without a continuation.
  pub next-Inv :
      (w : World A) (unset : ℕ → Bool) (i : ℕ) (m : Member A) (func : A → Expected A)
      → Inv den w [] unset
      → get_elem? w.members i ≡ some m
      → m.next ≡ none
      → den (length w.members) ≡ and_then (den i) func
      → (w' : World A) × (unset' : ℕ → Bool) × (next w i func ≡ returns (length w.members, w'))
        × Inv den w' [] unset'
  unfolding next attach
  next-Inv w unset i m func inv at n follows = by_status (inv.members_ok i m at)
    where
      j : ℕ
      j = length w.members

      b : Branch A
      b = record { func = func; target = j }

      u : ℕ → Bool
      u = raise unset j

      -- The task that stands for whoever will set the new future.
      spare : Unit {0} → Expected A
      spare x = exception

      inv₁ : Inv den (grown den w) (code spare j ∷ []) u
      inv₁ = grown-Inv den w [] unset spare inv

      at₁ : get_elem? (grown den w).members i ≡ some m
      at₁ = get_elem?-append_left w.members (new_member ∷ []) i m at

      i_lt : i < j
      i_lt = get_elem?-lt w.members i m at

      chained :
          (m' : Member A)
          → m'.next ≡ some (then_one b)
          → m'.status ≡ continued
          → Inv den (put (grown den w) i m') (code spare j ∷ []) u
      chained m' n' s =
          chain-Inv den (grown den w) (code spare j ∷ []) u i m m' (then_one b) inv₁ at₁ n n' s (
            record {
              later = i_lt;
              made = omega (arith, length-append w.members (new_member ∷ []));
              follows = follows;
            },
            tt,
          )

      put_there : (m' : Member A) → get_elem? (put (grown den w) i m').members i ≡ some m'
      put_there m' =
          get_elem?-set_self (grown den w).members i m' (get_elem?-lt (grown den w).members i m at₁)

      -- What `next` does after it has found the member.
      pair : Outcome (World A) → Outcome (ℕ × World A)
      pair o = o >>= λ w'. returns (j, w')

      check_next : Member A → Option (Continuation A) → Outcome (ℕ × World A)
      check_next k o = elim o [
        | some c ↦ undefined
        | none ↦ pair (attach (grown den w) i k (then_one b))
      ]

      found : Option (Member A) → Outcome (ℕ × World A)
      found o = elim o [ none ↦ undefined | some k ↦ check_next k k.next ]

      result_of : Option (Expected A) → Outcome (World A)
      result_of r = elim r [
        | none ↦ undefined
        | some e ↦
            pass_next
              (put (grown den w) i (record {
                next = some (then_one b);
                count = m.count;
                status = continued;
                result = none;
              }))
              (then_one b) e
      ]

      status_of : Bool → Outcome (World A)
      status_of x = elim x [
        | true ↦ result_of m.result
        | false ↦ returns (
            put (grown den w) i (record {
              next = some (then_one b);
              count = fetch_sub m.count;
              status = continued;
              result = m.result;
            }))
      ]

      starts : next w i func ≡ pair (status_of (is_status_ready m.status))
      starts = ap found at ∙ ap (check_next m) n

      by_status :
          MemberOk den (length w.members) unset i m
          → (w' : World A) × (unset' : ℕ → Bool) × (next w i func ≡ returns (j, w'))
            × Inv den w' [] unset'
      by_status (is_deferred a s c r not_set) =
          let m' : Member A = record {
            next = some (then_one b);
            count = fetch_sub m.count;
            status = continued;
            result = m.result;
          } in
          (
            put (grown den w) i m',
            u,
            starts ∙ ap (λ x. pair (status_of (is_status_ready x))) s,
            release-Inv den (put (grown den w) i m') [] u spare j (chained m' refl refl) (λ h.
                by_future i m' (then_one b) i_lt (put_there m') refl (inl refl)
                  (raise_ne unset j i (omega (arith, i_lt)) ∙ not_set)),
          )
      by_status (is_ready a s r is_set) =
          let m' : Member A = record {
            next = some (then_one b);
            count = m.count;
            status = continued;
            result = none;
          } in
          let (w', u', ran, inv') =
            pass_next-Inv (put (grown den w) i m') u spare i m' b (chained m' refl refl)
              (put_there m') refl (den i) refl in
          (
            w',
            u',
            starts
                ∙ ap (λ x. pair (status_of (is_status_ready x))) s
                ∙ ap (λ x. pair (result_of x)) r
                ∙ ap pair ran,
            inv',
          )
      by_status (is_continued c a s bs) = absurd (cc (a, n))
