-- ===== src/Streams/Stream.antt =====
-- `function_stream`, `future_generator_t`, the package that travels from task to task, and `call` with
-- its tasks. A call of a function may throw.
use function_queue.Prelude.{
  ℕ, zero, suc, ◌+◌, ◌≡◌, ◌≢◌, refl, Bool, true, false, not, List, [], ◌∷◌, Option, none, some,
  arith, length, get_elem?, if◌then◌else◌,
}
use function_queue.Futures.Expected.{Expected, value, exception}
use function_queue.Streams.Composer.{Tag, function_tag, last_function_tag, which_type}

module _ {ℓ} (A : Type ℓ) where
  pub record Package : Type ℓ where
    pub function_list : List (A → Expected A)
    pub targs : A
    pub continue_on_result_destruction : Bool

  -- What a task does to the world outside its package.
  pub data Effect : Type ℓ where
    -- it ends and leaves no trace
    stops : Effect
    -- it adds the task of the next position
    calls : ℕ → Package → Effect
    -- it sets the future of the stream
    sets_result : Expected A → Effect
    -- `std::get` is out of range
    out_of_range : Effect

module _ {ℓ} {A : Type ℓ} where
  unfoldable pub continue_processing : Package A → Bool
  continue_processing pkg = pkg.continue_on_result_destruction

  unfoldable pub next_package : Package A → A → Package A
  next_package pkg arg = record {
    function_list = pkg.function_list;
    targs = arg;
    continue_on_result_destruction = pkg.continue_on_result_destruction;
  }

  -- The task at the last function. `alive` is whether the future of the stream can still be locked.
  call_task_last : ℕ → Bool → Package A → Effect A
  unfolding continue_processing
  call_task_last pos alive pkg =
      if not (continue_processing pkg) then stops else elim (get_elem? pkg.function_list pos) [
        | none ↦ out_of_range
        | some func ↦ if alive then sets_result (func pkg.targs) else stops
      ]

  -- What follows the call of a function that is not the last: its value goes to the next task, and an
  -- exception to the future of the stream.
  call_result : ℕ → Bool → Package A → Expected A → Effect A
  unfolding next_package
  call_result pos alive pkg (value v) = calls (pos + 1) (next_package pkg v)
  call_result pos alive pkg exception = if alive then sets_result exception else stops

  call_task_function : ℕ → Bool → Package A → Effect A
  unfolding continue_processing call_result
  call_task_function pos alive pkg =
      if continue_processing pkg then stops else elim (get_elem? pkg.function_list pos) [
        | none ↦ out_of_range
        | some func ↦ call_result pos alive pkg (func pkg.targs)
      ]

  call_task : Tag → ℕ → Bool → Package A → Effect A
  unfolding call_task_last call_task_function
  call_task last_function_tag pos alive pkg = call_task_last pos alive pkg
  call_task function_tag pos alive pkg = call_task_function pos alive pkg

  settle : (ℕ → Package A → Option (Expected A)) → Effect A → Option (Expected A)
  settle call stops = none
  settle call (calls pos pkg) = call pos pkg
  settle call (sets_result r) = some r
  settle call out_of_range = none

  -- `call< pos >`: its task runs, and then the tasks that it leads to, `tasks` at most. `alive n` tells
  -- whether the future of the stream is still there when the task of position `n` looks. The result is
  -- what the future is set to, if it is set.
  call : ℕ → (ℕ → Bool) → ℕ → Package A → Option (Expected A)
  unfolding call_task settle which_type
  call zero alive pos pkg = none
  call (suc tasks) alive pos pkg =
      settle (call tasks alive)
        (call_task (which_type pos (length pkg.function_list)) pos (alive pos) pkg)

  -- `operator( )` of a stream: one task for each function is enough.
  unfoldable pub call_stream : List (A → Expected A) → Bool → (ℕ → Bool) → A → Option (Expected A)
  unfolding call
  call_stream funcs continue_on_result_destruction alive arg = call (length funcs) alive 0 (record {
    function_list = funcs;
    targs = arg;
    continue_on_result_destruction = continue_on_result_destruction;
  })

  -- A stream of one function, with its flag as it is by default, sets its future to what the function
  -- returns or throws, if the future is still there.
  pub call_stream_one :
      (f : A → Expected A) (alive : ℕ → Bool) (x : A)
      → call_stream (f ∷ []) true alive x ≡ (if alive 0 then some (f x) else none)
  unfolding call_stream
  call_stream_one f alive x = ground arith

  -- No value is delivered, now or by the next task.
  abbrev IsSilent : Effect A → Type 0
  IsSilent stops = Unit
  IsSilent (calls pos pkg) = pkg.continue_on_result_destruction ≡ false
  IsSilent (sets_result (value v)) = ⊥
  IsSilent (sets_result exception) = Unit
  IsSilent out_of_range = Unit

  call_result-IsSilent :
      (pos : ℕ) (alive : Bool) (pkg : Package A) (r : Expected A)
      → pkg.continue_on_result_destruction ≡ false
      → IsSilent (call_result pos alive pkg r)
  unfolding call_result
  call_result-IsSilent pos alive pkg (value v) h = h
  call_result-IsSilent pos true pkg exception h = tt
  call_result-IsSilent pos false pkg exception h = tt

  call_task-IsSilent :
      (tag : Tag) (pos : ℕ) (alive : Bool) (pkg : Package A)
      → pkg.continue_on_result_destruction ≡ false
      → IsSilent (call_task tag pos alive pkg)
  unfolding call_task continue_processing
  call_task-IsSilent last_function_tag pos alive pkg h = rw (h, call_task_last) tt
  call_task-IsSilent function_tag pos alive pkg h =
      rw (h, call_task_function) (by_function (get_elem? pkg.function_list pos))
    where
      by_function :
          (o : Option (A → Expected A))
          → IsSilent (elim o [
            | none ↦ out_of_range
            | some func ↦ call_result pos alive pkg (func pkg.targs)
          ])
      by_function none = tt
      by_function (some func) = call_result-IsSilent pos alive pkg (func pkg.targs) h

  call_discontinued :
      (tasks : ℕ) (alive : ℕ → Bool) (pos : ℕ) (pkg : Package A) (v : A)
      → pkg.continue_on_result_destruction ≡ false
      → call tasks alive pos pkg ≢ some (value v)
  unfolding call settle
  call_discontinued zero alive pos pkg v h = λ e. cc
  call_discontinued (suc tasks) alive pos pkg v h =
      settled (call_task (which_type pos (length pkg.function_list)) pos (alive pos) pkg)
        (call_task-IsSilent (which_type pos (length pkg.function_list)) pos (alive pos) pkg h)
        (λ p k q. call_discontinued tasks alive p k v q)
    where
      settled :
          (e : Effect A)
          → IsSilent e
          → ((p : ℕ) (k : Package A)
              → k.continue_on_result_destruction ≡ false
              → call tasks alive p k ≢ some (value v))
          → settle (call tasks alive) e ≢ some (value v)
      settled stops q rest = λ e. cc
      settled (calls p k) q rest = rest p k q
      settled (sets_result (value w)) q rest = absurd q
      settled (sets_result exception) q rest = λ e. cc
      settled out_of_range q rest = λ e. cc

  -- A stream of two functions or more never delivers a value: with its flag as it is by default its
  -- future is never set at all, and with the flag off it is set to an exception at most. This holds
  -- whatever the functions return and whenever the future is looked for.
  pub call_stream_many :
      (f g : A → Expected A) (fs : List (A → Expected A)) (alive : ℕ → Bool) (x : A)
      → (call_stream (f ∷ g ∷ fs) true alive x ≡ none)
        × ((v : A) → call_stream (f ∷ g ∷ fs) false alive x ≢ some (value v))
  unfolding call_stream
  call_stream_many f g fs alive x = (
    ground arith,
    λ v.
        call_discontinued (length (f ∷ g ∷ fs)) alive 0
          (record { function_list = f ∷ g ∷ fs; targs = x; continue_on_result_destruction = false })
          v refl,
  )
