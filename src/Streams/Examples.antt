-- ===== src/Streams/Examples.antt =====
-- Runs of composers and streams of functions on numbers.
use function_queue.Prelude.{ℕ, ◌+◌, ◌*◌, ◌≡◌, Bool, true, [], ◌∷◌, Option, none, some, length}
use function_queue.Outcome.{returns, ◌>>=◌}
use function_queue.Futures.Expected.{Expected, value, exception}
use function_queue.Streams.Composer.{apply, apply-next}
use function_queue.Streams.Composer
use function_queue.Streams.Generator.{
  FutureGenerator, const_lvalue, other_value, call_generator, make_future_generator, pipe_generator,
  pipe_function, next, pipe_generator-silent,
}

twice : ℕ → ℕ
twice x = x * 2

incr : ℕ → ℕ
incr x = x + 1

apply-next_example :
    (apply (twice ∷ incr ∷ []) 5 ≡ returns 11)
    × (apply (Composer.next (twice ∷ incr ∷ []) (twice ∷ [])) 5
        ≡ (apply (twice ∷ incr ∷ []) 5 >>= apply (twice ∷ [])))
unfolding twice incr
apply-next_example = apply-next (twice ∷ incr ∷ []) (twice ∷ []) 5

there : ℕ → Bool
there n = true

add_one : ℕ → Expected ℕ
add_one x = value (x + 1)

-- A future as a value: what it is set to, or 0.
abbrev set_to : Option (Expected ℕ) → ℕ
set_to none = 0
set_to (some (value v)) = v
set_to (some exception) = 0

abbrev one_function : FutureGenerator ℕ
one_function = make_future_generator (add_one ∷ [])

pipe_generator-silent_example :
    (call_generator one_function there 4 ≡ some (value 5))
    × (call_generator (pipe_generator set_to there other_value one_function one_function) there 4
        ≡ none)
    × (call_generator (pipe_function one_function add_one) there 4 ≡ none)
    × (call_generator (next one_function (add_one ∷ [])) there 4 ≡ none)
    × ((pipe_generator set_to there const_lvalue
          (pipe_generator set_to there const_lvalue one_function (make_future_generator []))
          (make_future_generator [])).funcs
        ≡ add_one ∷ [])
    × (length
          (pipe_generator set_to there other_value one_function (
            pipe_generator set_to there const_lvalue
              (make_future_generator [])
              (make_future_generator []))).funcs
        ≡ 2)
unfolding there add_one
pipe_generator-silent_example =
    pipe_generator-silent add_one add_one [] [] one_function set_to other_value there 4
