-- ===== src/Streams/Generator.antt =====
-- `function_stream` and `future_generator_t` of include/daw/fs/function_stream.h, and the calls that put
-- them together.
use function_queue.Prelude.{
  ℕ, suc, ◌≡◌, Bool, true, List, [], ◌∷◌, ◌++◌, Option, none, some, append_assoc, arith, length,
  length-append, if◌then◌else◌,
}
use function_queue.Futures.Expected.{Expected, value}
use function_queue.Streams.Stream.{call_stream, call_stream_many, call_stream_one}

module _ {ℓ} (A : Type ℓ) where
  pub record FunctionStream : Type ℓ where
    pub funcs : List (A → Expected A)
    pub continue_on_result_destruction : Bool

  pub record FutureGenerator : Type ℓ where
    pub funcs : List (A → Expected A)

-- The value category of the right side of `operator|`.
pub data Category : Type 0 where
  const_lvalue : Category
  other_value : Category

module _ {ℓ} {A : Type ℓ} where
  -- The constructor of `function_stream`, which `make_function_stream` calls.
  abbrev pub make_function_stream : List (A → Expected A) → FunctionStream A
  make_function_stream funcs = record { funcs = funcs; continue_on_result_destruction = true }

  -- `operator( )` of a stream: what its future is set to, if it is set.
  unfoldable pub call_function_stream : FunctionStream A → (ℕ → Bool) → A → Option (Expected A)
  unfolding call_stream
  call_function_stream stream alive arg =
      call_stream stream.funcs stream.continue_on_result_destruction alive arg

  -- `make_future_generator` and `compose_future`
  abbrev pub make_future_generator : List (A → Expected A) → FutureGenerator A
  make_future_generator functions = record { funcs = functions }

  abbrev pub get_function_stream : FutureGenerator A → FunctionStream A
  get_function_stream generator = make_function_stream generator.funcs

  -- `operator( )` of a generator.
  unfoldable pub call_generator : FutureGenerator A → (ℕ → Bool) → A → Option (Expected A)
  unfolding call_function_stream
  call_generator generator alive arg =
      call_function_stream (get_function_stream generator) alive arg

  abbrev pub next : FutureGenerator A → List (A → Expected A) → FutureGenerator A
  next generator next_functions = make_future_generator (generator.funcs ++ next_functions)

  abbrev pub join : FutureGenerator A → FutureGenerator A → FutureGenerator A
  join generator fut2 = make_future_generator (generator.funcs ++ fut2.funcs)

  -- `operator|` with a function on its right.
  abbrev pub pipe_function : FutureGenerator A → (A → Expected A) → FutureGenerator A
  pipe_function lhs next_func = next lhs (next_func ∷ [])

  -- A generator as a function: its call gives a future, and does not wait for it. `future` makes a value
  -- of what the future is set to.
  abbrev pub as_function :
      (Option (Expected A) → A) → (ℕ → Bool) → FutureGenerator A → A → Expected A
  as_function future alive generator x = value (future (call_generator generator alive x))

  -- `operator|` with a generator on its right. The overload with `join` is the better match for a const
  -- lvalue only; everything else goes to the overload for functions, and becomes one of them.
  abbrev pub pipe_generator :
      (Option (Expected A) → A)
      → (ℕ → Bool)
      → Category
      → FutureGenerator A
      → FutureGenerator A
      → FutureGenerator A
  pipe_generator future alive const_lvalue lhs rhs = join lhs rhs
  pipe_generator future alive other_value lhs rhs = pipe_function lhs (as_function future alive rhs)

  -- A generator of one function sets its future to what the function returns or throws, if the future
  -- is still there. Two generators with at least one function each, put together by `operator|`, whatever
  -- the category of the right one, make one whose future is never set, whatever the functions return, and
  -- so do a generator and a function, and `next`. Three generators put together from the left, the right
  -- ones const lvalues, have all the functions of the three; put together from the right, `a | b` is not
  -- an lvalue, so that the result has one function more than the first generator has.
  pub pipe_generator-silent :
      (f g : A → Expected A) (fs gs : List (A → Expected A)) (h : FutureGenerator A)
      (future : Option (Expected A) → A) (category : Category) (alive : ℕ → Bool) (x : A)
      → (call_generator (make_future_generator (f ∷ [])) alive x
          ≡ (if alive 0 then some (f x) else none))
        × (call_generator
              (pipe_generator future alive category
                (make_future_generator (f ∷ fs))
                (make_future_generator (g ∷ gs)))
              alive
              x
            ≡ none)
        × (call_generator (pipe_function (make_future_generator (f ∷ fs)) g) alive x ≡ none)
        × (call_generator (next (make_future_generator (f ∷ fs)) (g ∷ gs)) alive x ≡ none)
        × ((pipe_generator future alive const_lvalue
              (pipe_generator future alive const_lvalue h (make_future_generator fs))
              (make_future_generator gs)).funcs
            ≡ h.funcs ++ (fs ++ gs))
        × (length
              (pipe_generator future alive other_value h (
                pipe_generator future alive const_lvalue
                  (make_future_generator fs)
                  (make_future_generator gs))).funcs
            ≡ suc (length h.funcs))
  unfolding call_generator
  pipe_generator-silent f g fs gs h future category alive x = (
    call_stream_one f alive x,
    piped category,
    silent fs g [],
    silent fs g gs,
    append_assoc h.funcs fs gs,
    omega (
      arith,
      length-append h.funcs (as_function future alive (make_future_generator (fs ++ gs)) ∷ []),
    ),
  )
    where
      silent :
          (l : List (A → Expected A)) (k : A → Expected A) (m : List (A → Expected A))
          → call_stream (f ∷ (l ++ k ∷ m)) true alive x ≡ none
      silent [] k m = (call_stream_many f k m alive x).0
      silent (e ∷ l) k m = (call_stream_many f e (l ++ k ∷ m) alive x).0

      piped :
          (c : Category)
          → call_generator
              (pipe_generator future alive c
                (make_future_generator (f ∷ fs))
                (make_future_generator (g ∷ gs)))
              alive
              x
            ≡ none
      piped const_lvalue = silent fs g gs
      piped other_value = silent fs (as_function future alive (make_future_generator (g ∷ gs))) []
