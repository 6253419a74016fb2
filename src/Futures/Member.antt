-- ===== src/Futures/Member.antt =====
-- `member_data_members` and `member_data_t` of include/daw/fs/impl/future_result_impl.h, which
-- `future_result_t` passes its calls on to, and `make_future_result` of include/daw/fs/future_result.h.
-- The shared data of the futures stand in one store, a future is an index into it, and the tasks that
-- were given to the scheduler wait in a list. `next` and `fork` are steps that are not interrupted,
-- since the code holds the lock of `m_next` in them; `set_value` gives the lock back before it stores a
-- result, and `store_result` is what it does from there. Adding a task succeeds.
use function_queue.Prelude.{
  ℕ, zero, suc, Bool, true, false, List, [], ◌∷◌, ◌++◌, map, Option, none, some, length, get_elem?,
  set, ◌==◌,
}
use function_queue.Outcome.{Outcome, returns, throws, undefined, ◌>>=◌}
use function_queue.MessageQueue.{Waited, returned, waiting}
use function_queue.Latch.{fetch_sub}
use function_queue.Futures.Expected.{Expected, value, exception}

pub data FutureStatus : Type 0 where
  ready timeout deferred continued : FutureStatus

abbrev pub is_status_ready : FutureStatus → Bool
is_status_ready ready = true
is_status_ready timeout = false
is_status_ready deferred = false
is_status_ready continued = false

abbrev pub is_status_continued : FutureStatus → Bool
is_status_continued ready = false
is_status_continued timeout = false
is_status_continued deferred = false
is_status_continued continued = true

-- A function of a continuation, and the future that it sets.
pub record Branch {ℓ} (A : Type ℓ) : Type ℓ where
  pub func : A → Expected A
  pub target : ℕ

-- `m_next`, as `next` and as `fork` set it.
pub data Continuation {ℓ} (A : Type ℓ) : Type ℓ where
  then_one : Branch A → Continuation A
  then_all : List (Branch A) → Continuation A

abbrev pub branches {ℓ} : {A : Type ℓ} → Continuation A → List (Branch A)
branches (then_one b) = b ∷ []
branches (then_all bs) = bs

-- A task that sets a future by `from_code`, or the empty task that `fork` adds behind its own.
pub data CodeTask {ℓ} (A : Type ℓ) : Type ℓ where
  code : (Unit {0} → Expected A) → ℕ → CodeTask A
  empty_task : CodeTask A

-- The shared data of a future; its latch is given by the count.
pub record Member {ℓ} (A : Type ℓ) : Type ℓ where
  pub next : Option (Continuation A)
  pub count : ℕ
  pub status : FutureStatus
  pub result : Option (Expected A)

pub record World {ℓ} (A : Type ℓ) : Type ℓ where
  pub members : List (Member A)
  pub tasks : List (CodeTask A)

module _ {ℓ} {A : Type ℓ} where
  -- A future as it is constructed.
  abbrev pub new_member : Member A
  new_member = record { next = none; count = 1; status = deferred; result = none }

  abbrev pub put : World A → ℕ → Member A → World A
  put w i m = record { members = set w.members i m; tasks = w.tasks }

  abbrev pub task_of : A → Branch A → CodeTask A
  task_of v b = code (λ _. b.func v) b.target

  -- The tasks that a continuation adds for a value.
  abbrev pub tasks_of : Continuation A → A → List (CodeTask A)
  tasks_of (then_one b) v = task_of v b ∷ []
  tasks_of (then_all bs) v = map (task_of v) bs ++ empty_task ∷ []

  -- `set_exception` on each of the futures of a continuation.
  abbrev pub set_each :
      (World A → ℕ → Outcome (World A)) → World A → List (Branch A) → Outcome (World A)
  set_each set_one w [] = returns w
  set_each set_one w (b ∷ bs) = set_one w b.target >>= λ w'. set_each set_one w' bs

  -- What a continuation does with the value or the exception that it is passed.
  abbrev pub continue_with :
      (World A → ℕ → Outcome (World A)) → World A → Continuation A → Expected A → Outcome (World A)
  continue_with set_one w c (value v) =
      returns (record { members = w.members; tasks = w.tasks ++ tasks_of c v })
  continue_with set_one w c exception = set_each set_one w (branches c)

  -- A member that gets its result.
  abbrev pub store_member : Member A → Expected A → Member A
  store_member m e = record {
    next = m.next;
    count = fetch_sub m.count;
    status = ready;
    result = some e;
  }

  -- What `set_value` does when it has seen no continuation.
  abbrev pub store_result : World A → ℕ → Expected A → Outcome (World A)
  store_result w i e = elim (get_elem? w.members i) [
    | none ↦ undefined
    | some m ↦ returns (put w i (store_member m e))
  ]

  -- `set_value( expected_result_t )` and `set_exception`. A continuation sets only futures that were
  -- made after its own; `undefined` also stands for a chain that has not ended when the fuel has.
  unfoldable pub set_value : ℕ → World A → ℕ → Expected A → Outcome (World A)
  unfolding fetch_sub
  set_value zero w i e = undefined
  set_value (suc fuel) w i e = elim (get_elem? w.members i) [
    | none ↦ undefined
    | some m ↦ elim m.next [
      | some c ↦ continue_with (λ w' j. set_value fuel w' j exception) w c e
      | none ↦ returns (put w i (store_member m e))
    ]
  ]

  -- `pass_next`
  unfoldable pub pass_next : World A → Continuation A → Expected A → Outcome (World A)
  unfolding set_value
  pass_next w c e = continue_with (λ w' j. set_value (length w'.members) w' j exception) w c e

  -- `make_future_result`: a new future, and the task that sets it.
  unfoldable pub make_future_result : World A → (Unit {0} → Expected A) → ℕ × World A
  make_future_result w func = (
    length w.members,
    record {
      members = w.members ++ new_member ∷ [];
      tasks = w.tasks ++ code func (length w.members) ∷ [];
    },
  )

  -- The end of `next` on a future that gets its continuation. The status is `continued` in the end in
  -- both cases; nothing that `pass_next` does looks at it. A result that was moved from is `none`.
  unfoldable pub attach : World A → ℕ → Member A → Continuation A → Outcome (World A)
  unfolding pass_next fetch_sub
  attach w i m c = elim (is_status_ready m.status) [
    | true ↦ elim m.result [
      | none ↦ undefined
      | some e ↦
          pass_next
            (put w i (record { next = some c; count = m.count; status = continued; result = none }))
            c e
    ]
    | false ↦ returns (
        put w i (record {
          next = some c;
          count = fetch_sub m.count;
          status = continued;
          result = m.result;
        }))
  ]

  -- `next`. It is only called on a future that has no continuation.
  unfoldable pub next : World A → ℕ → (A → Expected A) → Outcome (ℕ × World A)
  unfolding attach
  next w i func = elim (get_elem? w.members i) [
    | none ↦ undefined
    | some m ↦ elim m.next [
      | some c ↦ undefined
      | none ↦
          let j = length w.members in
          attach (record { members = w.members ++ new_member ∷ []; tasks = w.tasks }) i m
            (then_one (record { func = func; target = j }))
          >>= λ w'. returns (j, w')
    ]
  ]

  -- The futures that `fork` makes, one for each function.
  abbrev pub fork_branches : ℕ → List (A → Expected A) → List (Branch A)
  fork_branches j [] = []
  fork_branches j (f ∷ fs) = record { func = f; target = j } ∷ fork_branches (suc j) fs

  -- `fork`. The status is set to `continued` before it is compared with `ready`, so the branch for a
  -- future that is ready is never taken.
  unfoldable pub fork : World A → ℕ → List (A → Expected A) → Outcome (List ℕ × World A)
  unfolding fetch_sub
  fork w i funcs = elim (get_elem? w.members i) [
    | none ↦ undefined
    | some m ↦ elim m.next [
      | some c ↦ undefined
      | none ↦
          let bs = fork_branches (length w.members) funcs in
          returns (
            map (λ b. b.target) bs,
            put (record { members = w.members ++ map (λ _. new_member) funcs; tasks = w.tasks }) i
                (record {
                  next = some (then_all bs);
                  count = fetch_sub m.count;
                  status = continued;
                  result = m.result;
                }),
          )
    ]
  ]

  -- `wait`: does a caller that looks at the member now come back, or does it go on to block in the
  -- latch?
  abbrev pub passes : Member A → Bool
  passes m = elim (is_status_ready m.status) [ true ↦ true | false ↦ m.count == 0 ]

  -- `m_result.get( )`; an `expected_t` that holds nothing is not read.
  abbrev pub take_result : Option (Expected A) → Outcome A
  take_result none = undefined
  take_result (some (value v)) = returns v
  take_result (some exception) = throws

  -- A call of `get` that is made in this world: it looks once at the status and at the count. `waiting`
  -- is a call that blocks in the latch. Who is blocked there already, and whether the latch wakes him,
  -- is not in this model: module Callers follows the callers step by step.
  abbrev pub get_of : Option (Member A) → Waited (Outcome A)
  get_of none = returned undefined
  get_of (some m) = elim (passes m) [
    | false ↦ waiting
    | true ↦ elim (is_status_continued m.status) [
      | true ↦ returned throws
      | false ↦ returned (take_result m.result)
    ]
  ]

  unfoldable pub get : World A → ℕ → Waited (Outcome A)
  get w i = get_of (get_elem? w.members i)

  abbrev pub has_exception : Option (Expected A) → Bool
  has_exception none = false
  has_exception (some (value v)) = false
  has_exception (some exception) = true

  unfoldable pub is_exception : World A → ℕ → Waited (Outcome Bool)
  is_exception w i = elim (get_elem? w.members i) [
    | none ↦ returned undefined
    | some m ↦ elim (passes m) [
      | false ↦ waiting
      | true ↦ elim (is_status_continued m.status) [
        | true ↦ returned throws
        | false ↦ returned (returns (has_exception m.result))
      ]
    ]
  ]

  -- The task at position `k`, and the others.
  abbrev pub remove : ℕ → List (CodeTask A) → Option (CodeTask A) × List (CodeTask A)
  remove k [] = (none, [])
  remove zero (t ∷ ts) = (some t, ts)
  remove (suc k) (t ∷ ts) = let (r, ts') = remove k ts in (r, t ∷ ts')

  -- A worker runs the task at position `k`, if there is one.
  unfoldable pub run_code : World A → ℕ → Outcome (World A)
  unfolding set_value
  run_code w k =
      let (t, ts) = remove k w.tasks in
      let w' : World A = record { members = w.members; tasks = ts } in
      elim t [
        | none ↦ returns w'
        | some empty_task ↦ returns w'
        | some (code func i) ↦ set_value (length w'.members) w' i (func tt)
      ]
