-- ===== src/Futures/Adding.antt =====
-- The overloads of `make_future_result` of include/daw/fs/future_result.h that take a scheduler, and what
-- becomes of the task in `send_task` of src/task_scheduler.cpp: it stands in a queue, it is dropped since
-- the scheduler has been stopped, or it is refused.
use function_queue.Prelude.{
  ℕ, suc, ◌<◌, ◌≡◌, ◌≢◌, refl, ap, ◌∙◌, Bool, true, false, List, [], ◌∷◌, ◌++◌, none, some, arith,
  length, length-append, ◌==◌, get_elem?-append_length, if◌then◌else◌,
}
use function_queue.Outcome.{Outcome, returns, throws, ◌>>=◌}
use function_queue.MessageQueue.{Waited, returned, waiting}
use function_queue.Futures.Expected.{Expected}
use function_queue.Futures.Member.{
  CodeTask, take_result, set_value, code, Member, World, new_member, run_code, get, get_of,
  store_member, put,
}
use function_queue.Futures.Group.{group_member}
use function_queue.Futures.Lost.{run_code-nothing}
use function_queue.Futures.Join.{set_value-open, get-stored}

pub data Added : Type 0 where
  queued : Added
  dropped : Added
  refused : Added

-- What `add_task` returns: a stopped scheduler answers yes.
abbrev pub accepts : Added → Bool
accepts queued = true
accepts dropped = true
accepts refused = false

abbrev pub is_queued : Added → Bool
is_queued queued = true
is_queued dropped = false
is_queued refused = false

module _ {ℓ} {A : Type ℓ} where
  -- A new future, and its task where it was queued.
  abbrev pub add_member : Added → World A → Member A → (Unit {0} → Expected A) → ℕ × World A
  add_member added w m func = (
    length w.members,
    record {
      members = w.members ++ m ∷ [];
      tasks = if is_queued added then w.tasks ++ code func (length w.members) ∷ [] else w.tasks;
    },
  )

  -- The first overload. The world that it leaves when it throws has one future more, which nobody has.
  unfoldable pub make_future_result_or_throw :
      Added → World A → (Unit {0} → Expected A) → Outcome (ℕ × World A)
  make_future_result_or_throw added w func =
      if accepts added then returns (add_member added w new_member func) else throws

  -- The overload with a latch, which does not look at what `add_task` returns. `future_task_t` catches
  -- what the function throws.
  unfoldable pub make_future_result_on : Added → World A → ℕ → (Unit {0} → Expected A) → ℕ × World A
  make_future_result_on added w count func = add_member added w (group_member count) func

  -- What `get` does when a worker has had its turn.
  abbrev pub after_turn : Added → (Unit {0} → Expected A) → Waited (Outcome A)
  after_turn queued func = returned (take_result (some (func tt)))
  after_turn dropped func = waiting
  after_turn refused func = waiting

  -- What a caller of the first overload has, if `get` gives `g` on its future.
  abbrev pub if_not_refused : Added → Waited (Outcome A) → Outcome (Waited (Outcome A))
  if_not_refused queued g = returns g
  if_not_refused dropped g = returns g
  if_not_refused refused g = throws

  get-group_member :
      (ms : List (Member A)) (ts : List (CodeTask A)) (count : ℕ)
      → count ≢ 0
      → get (record { members = ms ++ group_member count ∷ []; tasks = ts }) (length ms) ≡ waiting
  unfolding get
  get-group_member ms ts count c =
      let closed : (count == 0) ≡ false = ground (arith, c) in
      ap get_of (get_elem?-append_length ms (group_member count) [])
      ∙ ap (λ b. elim b [ false ↦ waiting | true ↦ returned (take_result none) ]) closed

  -- The only task of a world sets the last future.
  run_code-last :
      (ms : List (Member A)) (ts : List (CodeTask A)) (count : ℕ) (func : Unit {0} → Expected A)
      → ts ≡ []
      → run_code
          (record {
            members = ms ++ group_member count ∷ [];
            tasks = ts ++ code func (length ms) ∷ [];
          })
          0
        ≡ returns (
            put
              (record { members = ms ++ group_member count ∷ []; tasks = [] })
              (length ms)
              (store_member (group_member count) (func tt)))
  unfolding run_code
  run_code-last ms ts count func q =
      ap
        (λ ts'. run_code (record { members = bigger; tasks = ts' ++ code func (length ms) ∷ [] }) 0)
        q
      ∙ ap (λ n. set_value n (record { members = bigger; tasks = [] }) (length ms) (func tt)) enough
      ∙ set_value-open (length ms) (record { members = bigger; tasks = [] }) (length ms)
          (group_member count) (func tt) (get_elem?-append_length ms (group_member count) []) refl
    where
      bigger : List (Member A)
      bigger = ms ++ group_member count ∷ []

      enough : length bigger ≡ suc (length ms)
      enough = omega (arith, length-append ms (group_member count ∷ []))

  -- A future that `get` waits on, with its task or without. A turn of a worker gives the result if and
  -- only if the task stands in a queue.
  add_member-turn :
      (added : Added) (w : World A) (count : ℕ) (func : Unit {0} → Expected A)
      → w.tasks ≡ []
      → count ≢ 0
      → (get (add_member added w (group_member count) func).1 (length w.members) ≡ waiting)
        × ((w' : World A) × (run_code (add_member added w (group_member count) func).1 0
              ≡ returns w')
            × (w'.tasks ≡ [])
            × (get w' (length w.members) ≡ after_turn added func))
  add_member-turn queued w count func q c =
      let tasks = w.tasks ++ code func (length w.members) ∷ [] in
      let bigger : World A = record {
        members = w.members ++ group_member count ∷ [];
        tasks = [];
      } in
      let there : length w.members < length bigger.members =
        omega (arith, length-append w.members (group_member count ∷ [])) in
      (
        get-group_member w.members tasks count c,
        (
          put bigger (length w.members) (store_member (group_member count) (func tt)),
          run_code-last w.members w.tasks count func q,
          refl,
          get-stored bigger (length w.members) (group_member count) (func tt) there,
        ),
      )
  add_member-turn dropped w count func q c =
      let w' = (add_member dropped w (group_member count) func).1 in
      let waits = get-group_member w.members w.tasks count c in
      (waits, (w', run_code-nothing w' 0 q, q, waits))
  add_member-turn refused w count func q c =
      let w' = (add_member refused w (group_member count) func).1 in
      let waits = get-group_member w.members w.tasks count c in
      (waits, (w', run_code-nothing w' 0 q, q, waits))

  -- A world in which nothing waits to be run, and a scheduler that is asked for a task. The overload
  -- without a latch throws if and only if the task was refused; the one with a latch, here with a count
  -- other than 0, gives its future in every case. The two futures go the same way: `get` waits on them,
  -- and when a worker has had its turn it comes back with what the function makes if the task stood in
  -- a queue, whatever the count of the latch. If it did not, nothing is left to run and `get` waits
  -- still: with a latch when the task was refused, and in both overloads when the scheduler had been
  -- stopped, whose `add_task` drops the task and answers yes.
  pub make_future_result_on-answers :
      (added : Added) (w : World A) (count : ℕ) (func : Unit {0} → Expected A)
      → w.tasks ≡ []
      → count ≢ 0
      → ((make_future_result_or_throw added w func >>= λ r. returns (get r.1 r.0))
          ≡ if_not_refused added waiting)
        × ((make_future_result_or_throw added w func >>= λ r.
              run_code r.1 0 >>= λ w'. returns (get w' r.0))
            ≡ if_not_refused added (after_turn added func))
        × (get (make_future_result_on added w count func).1 (length w.members) ≡ waiting)
        × ((w' : World A) × (run_code (make_future_result_on added w count func).1 0 ≡ returns w')
            × (w'.tasks ≡ [])
            × (get w' (length w.members) ≡ after_turn added func))
  unfolding make_future_result_or_throw make_future_result_on
  make_future_result_on-answers added w count func q c =
      let (waits, (w₁, ran, left, after)) = add_member-turn added w 1 func q (omega arith) in
      let r = add_member added w new_member func in
      let (waits', turn') = add_member-turn added w count func q c in
      (
        answer_if added (λ k. returns (get k.1 k.0)) r waiting
            (ap (λ (g : Waited (Outcome A)). returns g) waits),
        answer_if added (λ k. run_code k.1 0 >>= λ w'. returns (get w' k.0)) r
            (after_turn added func)
            (ap (λ o. o >>= λ w'. returns (get w' (length w.members))) ran
              ∙ ap (λ (g : Waited (Outcome A)). returns g) after),
        waits',
        turn',
      )
    where
      answer_if :
          (d : Added) (f : ℕ × World A → Outcome (Waited (Outcome A))) (r : ℕ × World A)
          (g : Waited (Outcome A))
          → f r ≡ returns g
          → ((if accepts d then returns r else throws) >>= f) ≡ if_not_refused d g
      answer_if queued f r g e = e
      answer_if dropped f r g e = e
      answer_if refused f r g e = refl
