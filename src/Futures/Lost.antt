-- ===== src/Futures/Lost.antt =====
-- Two ways in which a continuation is never run: `fork` on a future that is set already, and `next`
-- between the look of `set_value` at the continuation and its store of the result.
use function_queue.Prelude.{
  ℕ, zero, suc, ◌+◌, ◌≤◌, ◌<◌, ◌≡◌, refl, sym, ap, ◌∙◌, Bool, true, false, List, [], ◌∷◌, ◌++◌, map,
  Option, none, some, arith, length, get_elem?, set, get_elem?-set_self, get_elem?-set_ne,
  get_elem?-lt, get_elem?-append_length,
}
use function_queue.Outcome.{Outcome, returns, undefined, ◌>>=◌}
use function_queue.MessageQueue.{returned, waiting}
use function_queue.Latch.{fetch_sub}
use function_queue.Futures.Expected.{Expected, value}
use function_queue.Futures.Member.{
  ready, deferred, continued, is_status_ready, take_result, Branch, Continuation, then_one,
  then_all, Member, World, new_member, put, store_member, store_result, attach, next, fork_branches,
  fork, get, get_of, run_code, pass_next,
}
use function_queue.Futures.Growth.{get_elem?-append_left}
use function_queue.Futures.Chaining.{next-run}

module _ {ℓ} {A : Type ℓ} where
  -- Nothing is left to run.
  pub run_code-nothing : (w : World A) (k : ℕ) → w.tasks ≡ [] → run_code w k ≡ returns w
  unfolding run_code
  run_code-nothing w k q =
      ap (λ ts. run_code (record { members = w.members; tasks = ts }) k) q
      ∙ ap (λ ts. returns (record { members = w.members; tasks = ts })) (sym q)

  get-new_member :
      (w : World A) (j : ℕ) → get_elem? w.members j ≡ some new_member → get w j ≡ waiting
  unfolding get
  get-new_member w j at = ap get_of at

  new_members :
      (xs : List (Member A)) (fs : List (A → Expected A)) (j : ℕ)
      → length xs ≤ j
      → j < length xs + length fs
      → get_elem? (xs ++ map (λ _. new_member) fs) j ≡ some new_member
  new_members [] [] j l h = absurd (omega arith)
  new_members [] (f ∷ fs) zero l h = refl
  new_members [] (f ∷ fs) (suc j) l h = new_members [] fs j (omega arith) (omega arith)
  new_members (x ∷ xs) fs zero l h = absurd (omega arith)
  new_members (x ∷ xs) fs (suc j) l h = new_members xs fs j (omega arith) (omega arith)

  -- `fork` adds no task, whatever the future is set to.
  fork-no_task :
      (w : World A) (i : ℕ) (m : Member A) (funcs : List (A → Expected A))
      → get_elem? w.members i ≡ some m
      → m.next ≡ none
      → w.tasks ≡ []
      → (w' : World A) × (fork w i funcs
          ≡ returns (map (λ b. b.target) (fork_branches (length w.members) funcs), w'))
        × ((k : ℕ) → run_code w' k ≡ returns w')
        × ((j : ℕ)
            → length w.members ≤ j
            → j < length w.members + length funcs
            → get w' j ≡ waiting)
  unfolding fork
  fork-no_task w i m funcs at n q = (
    w',
    ap found at ∙ ap (check_next m) n,
    λ k. run_code-nothing w' k q,
    λ j l h. get-new_member w' j (
        get_elem?-set_ne bigger i j m' (omega (arith, get_elem?-lt w.members i m at))
        ∙ new_members w.members funcs j l h),
  )
    where
      bs : List (Branch A)
      bs = fork_branches (length w.members) funcs

      bigger : List (Member A)
      bigger = w.members ++ map (λ _. new_member) funcs

      forked : Member A → Member A
      forked k = record {
        next = some (then_all bs);
        count = fetch_sub k.count;
        status = continued;
        result = k.result;
      }

      m' : Member A
      m' = forked m

      w' : World A
      w' = record { members = set bigger i m'; tasks = w.tasks }

      check_next : Member A → Option (Continuation A) → Outcome (List ℕ × World A)
      check_next k o = elim o [
        | some c ↦ undefined
        | none ↦ returns (
          map (λ b. b.target) bs,
          put (record { members = bigger; tasks = w.tasks }) i (forked k),
        )
      ]

      found : Option (Member A) → Outcome (List ℕ × World A)
      found o = elim o [ none ↦ undefined | some k ↦ check_next k k.next ]

  -- A future that is set to a value and has no continuation, when no task is left. `fork` on it adds no
  -- task: it gives its futures, every run of a worker leaves the world as it is, and `get` on each of
  -- the futures waits. With `next` in place of `fork` the function does run: when a worker has had its
  -- turn, `get` on the new future comes back with what the function makes of the value.
  pub fork-waiting :
      (w : World A) (i : ℕ) (m : Member A) (v : A) (func : A → Expected A)
      (funcs : List (A → Expected A))
      → get_elem? w.members i ≡ some m
      → m.next ≡ none
      → m.status ≡ ready
      → m.result ≡ some (value v)
      → w.tasks ≡ []
      → ((w' : World A) × (fork w i funcs
            ≡ returns (map (λ b. b.target) (fork_branches (length w.members) funcs), w'))
          × ((k : ℕ) → run_code w' k ≡ returns w')
          × ((j : ℕ)
              → length w.members ≤ j
              → j < length w.members + length funcs
              → get w' j ≡ waiting))
        × ((next w i func >>= λ r. run_code r.1 0 >>= λ w'. returns (get w' r.0))
            ≡ returns (returned (take_result (some (func v)))))
  fork-waiting w i m v func funcs at n s e q =
      (fork-no_task w i m funcs at n q, next-run w i m v func at n s e q)

  -- When `next` comes after `set_value` has seen no continuation and before it stores the result, and
  -- no other task is left, the continuation is not run: when the result has been stored no task has been
  -- added, every later run of a worker leaves the world as it is, and `get` on the future that `next`
  -- gave waits.
  pub store_result-next :
      (w : World A) (i : ℕ) (m : Member A) (func : A → Expected A) (e : Expected A)
      → get_elem? w.members i ≡ some m
      → m.next ≡ none
      → m.status ≡ deferred
      → w.tasks ≡ []
      → (w' : World A) × (w'' : World A) × (next w i func ≡ returns (length w.members, w'))
        × (store_result w' i e ≡ returns w'')
        × ((k : ℕ) → run_code w'' k ≡ returns w'')
        × (get w'' (length w.members) ≡ waiting)
  unfolding next attach
  store_result-next w i m func e at n s q = (
    w',
    w'',
    ap found at ∙ ap (check_next m) n ∙ ap (λ x. pair (status_of (is_status_ready x))) s,
    ap stored (get_elem?-set_self bigger.members i m' i_lt),
    λ k. run_code-nothing w'' k q,
    get-new_member w'' j (
        get_elem?-set_ne w'.members i j (store_member m' e) (omega (arith, i_less))
        ∙ get_elem?-set_ne bigger.members i j m' (omega (arith, i_less))
        ∙ get_elem?-append_length w.members new_member []),
  )
    where
      j : ℕ
      j = length w.members

      c : Continuation A
      c = then_one (record { func = func; target = j })

      bigger : World A
      bigger = record { members = w.members ++ new_member ∷ []; tasks = w.tasks }

      m' : Member A
      m' = record {
        next = some c;
        count = fetch_sub m.count;
        status = continued;
        result = m.result;
      }

      w' : World A
      w' = put bigger i m'

      w'' : World A
      w'' = put w' i (store_member m' e)

      i_less : i < j
      i_less = get_elem?-lt w.members i m at

      i_lt : i < length bigger.members
      i_lt =
          get_elem?-lt bigger.members i m (get_elem?-append_left w.members (new_member ∷ []) i m at)

      pair : Outcome (World A) → Outcome (ℕ × World A)
      pair o = o >>= λ w'. returns (j, w')

      check_next : Member A → Option (Continuation A) → Outcome (ℕ × World A)
      check_next k o = elim o [ some c' ↦ undefined | none ↦ pair (attach bigger i k c) ]

      found : Option (Member A) → Outcome (ℕ × World A)
      found o = elim o [ none ↦ undefined | some k ↦ check_next k k.next ]

      status_of : Bool → Outcome (World A)
      status_of x = elim x [
        | true ↦ elim m.result [
          | none ↦ undefined
          | some v ↦
              pass_next
                (put bigger i
                  (record { next = some c; count = m.count; status = continued; result = none }))
                c v
        ]
        | false ↦ returns w'
      ]

      stored : Option (Member A) → Outcome (World A)
      stored o = elim o [ none ↦ undefined | some k ↦ returns (put w' i (store_member k e)) ]
