-- ===== src/Futures/Join.antt =====
-- `join` and `future_apply` of include/daw/fs/future_result.h: a task that waits for some futures and
-- calls a function on their values.
use function_queue.Prelude.{
  ℕ, suc, ◌<◌, ◌≡◌, refl, sym, ap, ◌∙◌, List, [], ◌∷◌, ◌++◌, map, Option, none, some, arith, length,
  get_elem?, All, get_elem?-append_length, get_elem?-set_self, length-append,
}
use function_queue.Outcome.{Outcome, returns, throws, undefined, ◌>>=◌}
use function_queue.MessageQueue.{Waited, returned, waiting}
use function_queue.Futures.Expected.{Expected, value, exception, and_then}
use function_queue.Futures.Member.{
  Continuation, Member, World, new_member, put, store_member, continue_with, set_value, take_result,
  get, get_of,
}
use function_queue.Futures.Growth.{get_elem?-append_left}
use function_queue.Futures.Reachable.{Reachable, Open, outcome, get-drained}

module _ {ℓ} {A : Type ℓ} where
  -- One value more.
  abbrev with_value : Outcome A → Waited (Outcome (List A)) → Waited (Outcome (List A))
  with_value (returns v) waiting = waiting
  with_value (returns v) (returned o) = returned (o >>= λ vs. returns (v ∷ vs))
  with_value throws rest = returned throws
  with_value undefined rest = returned undefined

  -- `std::get< I >( t ).get( )...`, from the first to the last; the language leaves the order open.
  unfoldable pub get_all : World A → List ℕ → Waited (Outcome (List A))
  unfolding get
  get_all w [] = returned (returns [])
  get_all w (i ∷ is) = elim (get w i) [
    | waiting ↦ waiting
    | returned o ↦ with_value o (get_all w is)
  ]

  -- `future_apply`, as `from_code` calls it: what is thrown, by a future or by the function, is caught.
  abbrev pub caught : (List A → Expected A) → Outcome (List A) → Outcome (Expected A)
  caught f (returns vs) = returns (f vs)
  caught f throws = returns exception
  caught f undefined = undefined

  unfoldable pub future_apply :
      World A → (List A → Expected A) → List ℕ → Waited (Outcome (Expected A))
  unfolding get_all
  future_apply w f results = elim (get_all w results) [
    | waiting ↦ waiting
    | returned o ↦ returned (caught f o)
  ]

  -- The new future of `join`, whose task is taken by a worker at once.
  abbrev pub make_joined : World A → World A
  make_joined w = record { members = w.members ++ new_member ∷ []; tasks = w.tasks }

  -- The task of `join`, which sets future `target`.
  unfoldable pub run_join :
      World A → List ℕ → (List A → Expected A) → ℕ → Waited (Outcome (World A))
  unfolding future_apply set_value
  run_join w results next_function target = elim (future_apply w next_function results) [
    | waiting ↦ waiting
    | returned o ↦ returned (o >>= λ e. set_value (length w.members) w target e)
  ]

  -- All values, or an exception if there is one.
  abbrev pub all_values : List (Expected A) → Expected (List A)
  all_values [] = value []
  all_values (e ∷ es) = and_then e (λ v. and_then (all_values es) (λ vs. value (v ∷ vs)))

  -- A future without a continuation stores its result.
  pub set_value-open :
      (fuel : ℕ) (w : World A) (i : ℕ) (m : Member A) (e : Expected A)
      → get_elem? w.members i ≡ some m
      → m.next ≡ none
      → set_value (suc fuel) w i e ≡ returns (put w i (store_member m e))
  unfolding set_value
  set_value-open fuel w i m e at n = ap ended at ∙ ap continued_or_not n
    where
      continued_or_not : Option (Continuation A) → Outcome (World A)
      continued_or_not o = elim o [
        | some c ↦ continue_with (λ w' j. set_value fuel w' j exception) w c e
        | none ↦ returns (put w i (store_member m e))
      ]

      ended : Option (Member A) → Outcome (World A)
      ended o = elim o [
        | none ↦ undefined
        | some k ↦ elim k.next [
          | some c ↦ continue_with (λ w' j. set_value fuel w' j exception) w c e
          | none ↦ returns (put w i (store_member k e))
        ]
      ]

  abbrev all_or_throw : Expected (List A) → Outcome (List A)
  all_or_throw (value vs) = returns vs
  all_or_throw exception = throws

  -- `get` looks at one member.
  get-member :
      (w w' : World A) (i : ℕ) (m : Member A)
      → get_elem? w.members i ≡ some m
      → get_elem? w'.members i ≡ some m
      → get w' i ≡ get w i
  unfolding get
  get-member w w' i m at at' = ap get_of (at' ∙ sym at)

  -- The result of a task that was run is what `get` finds.
  pub get-stored :
      (w : World A) (i : ℕ) (m : Member A) (e : Expected A)
      → i < length w.members
      → get (put w i (store_member m e)) i ≡ returned (take_result (some e))
  unfolding get
  get-stored w i m e l = ap get_of (get_elem?-set_self w.members i (store_member m e) l)

  module _ (den : ℕ → Expected A) where
    caught-all :
        (f : List A → Expected A) (e : Expected (List A))
        → caught f (all_or_throw e) ≡ returns (and_then e f)
    caught-all f (value vs) = refl
    caught-all f exception = refl

    outcome-result : (e : Expected A) → take_result (some e) ≡ outcome den e
    outcome-result (value v) = refl
    outcome-result exception = refl

    with_value-all :
        (e : Expected A) (es : List (Expected A))
        → with_value (outcome den e) (returned (all_or_throw (all_values es)))
          ≡ returned (all_or_throw (all_values (e ∷ es)))
    with_value-all exception es = refl
    with_value-all (value v) es = by_rest (all_values es)
      where
        by_rest :
            (r : Expected (List A))
            → with_value (returns v) (returned (all_or_throw r))
              ≡ returned (all_or_throw (and_then r (λ vs. value (v ∷ vs))))
        by_rest (value vs) = refl
        by_rest exception = refl

    get_all-drained :
        (w : World A) (is : List ℕ)
        → All (λ i. get w i ≡ returned (outcome den (den i))) is
        → get_all w is ≡ returned (all_or_throw (all_values (map den is)))
    unfolding get_all
    get_all-drained w [] h = refl
    get_all-drained w (i ∷ is) (h, hs) =
        ap (λ g. elim g [ waiting ↦ waiting | returned o ↦ with_value o (get_all w is) ]) h
        ∙ ap (with_value (outcome den (den i))) (get_all-drained w is hs)
        ∙ with_value-all (den i) (map den is)

    joined-drained :
        (w : World A) (is : List ℕ)
        → Reachable den w
        → w.tasks ≡ []
        → All (Open w) is
        → All (λ i. get (make_joined w) i ≡ returned (outcome den (den i))) is
    joined-drained w [] r q h = tt
    joined-drained w (i ∷ is) r q ((m, at, n), hs) = (
      get-member w (make_joined w) i m at (get_elem?-append_left w.members (new_member ∷ []) i m at)
          ∙ get-drained den w i r (m, at, n) q,
      joined-drained w is r q hs,
    )

    -- A world that is reached by `make_future_result`, by `next`, by `fork` on futures on which `get`
    -- waits, and by runs of the tasks, in any order, no other call having set a future. `join` on futures
    -- without a continuation in it, when no other task is left: its task comes to an end, and `get` on the future that `join` returned then comes back
    -- with what the function makes of the values of all the futures, in their order; it throws if one
    -- of them is for an exception.
    pub join-drained :
        (w : World A) (results : List ℕ) (f : List A → Expected A)
        → Reachable den w
        → w.tasks ≡ []
        → All (Open w) results
        → (w' : World A) × (run_join (make_joined w) results f (length w.members)
            ≡ returned (returns w'))
          × (get w' (length w.members)
              ≡ returned (outcome den (and_then (all_values (map den results)) f)))
    unfolding run_join future_apply
    join-drained w results f r q opens = (
      put (make_joined w) (length w.members) (store_member new_member e),
      ap after (get_all-drained (make_joined w) results (joined-drained w results r q opens))
          ∙ ap (λ (o : Outcome (Expected A)). returned (o >>= λ x. set_it x)) (caught-all f all)
          ∙ ap (λ (o : Outcome (World A)). returned o) ended,
      get-stored (make_joined w) (length w.members) new_member e longer
          ∙ ap (λ (o : Outcome A). returned o) (outcome-result e),
    )
      where
        all : Expected (List A)
        all = all_values (map den results)

        e : Expected A
        e = and_then all f

        longer : length w.members < length (make_joined w).members
        longer = omega (arith, length-append w.members (new_member ∷ []))

        set_it : Expected A → Outcome (World A)
        set_it x = set_value (length (make_joined w).members) (make_joined w) (length w.members) x

        enough : length (make_joined w).members ≡ suc (length w.members)
        enough = omega (arith, length-append w.members (new_member ∷ []))

        applied : Waited (Outcome (List A)) → Waited (Outcome (Expected A))
        applied g = elim g [ waiting ↦ waiting | returned o ↦ returned (caught f o) ]

        after : Waited (Outcome (List A)) → Waited (Outcome (World A))
        after g = elim (applied g) [
          | waiting ↦ waiting
          | returned o ↦ returned (o >>= λ x. set_it x)
        ]

        ended :
            set_it e ≡ returns (put (make_joined w) (length w.members) (store_member new_member e))
        ended =
            ap (λ n. set_value n (make_joined w) (length w.members) e) enough
            ∙ set_value-open (length w.members) (make_joined w) (length w.members) new_member e
                (get_elem?-append_length w.members new_member []) refl
