-- ===== src/Streams/Composer.antt =====
-- `function_composer_t` of include/daw/fs/impl/function_stream_impl.h.
use function_queue.Prelude.{
  ℕ, zero, suc, ◌+◌, ◌-◌, ◌≤◌, ◌≡◌, refl, sym, ap, ap₂, ◌∙◌, List, [], ◌∷◌, ◌++◌, none, some, arith,
  length, get_elem?, ltb, if◌then◌else◌, foldl, foldl-append, append_assoc, get_elem?-append_length,
  length-append,
}
use function_queue.Outcome.{Outcome, returns, undefined, ◌>>=◌}

-- `which_type_t`: is there a function behind position `pos`?
pub data Tag : Type 0 where
  function_tag last_function_tag : Tag

unfoldable pub which_type : ℕ → ℕ → Tag
which_type pos size = if ltb pos (size - 1) then function_tag else last_function_tag

module _ {ℓ} {A : Type ℓ} where
  -- `std::get`; the index is in range at compile time.
  unfoldable pub get : ℕ → List (A → A) → Outcome (A → A)
  get pos funcs = elim (get_elem? funcs pos) [ none ↦ undefined | some f ↦ returns f ]

  -- The overloads of `function_composer_impl` by their tag; `rounds` bounds the number of calls.
  function_composer_impl : ℕ → ℕ → List (A → A) → Tag → A → Outcome A
  unfolding get which_type
  function_composer_impl rounds pos funcs last_function_tag x = get pos funcs >>= λ f. returns (f x)
  function_composer_impl zero pos funcs function_tag x = undefined
  function_composer_impl (suc rounds) pos funcs function_tag x = get pos funcs >>= λ f.
      function_composer_impl rounds (pos + 1) funcs (which_type (pos + 1) (length funcs)) (f x)

  -- `apply` with one argument.
  unfoldable pub apply : List (A → A) → A → Outcome A
  unfolding function_composer_impl
  apply [] x = returns x
  apply (f ∷ fs) x =
      function_composer_impl (length (f ∷ fs)) 0 (f ∷ fs) (which_type 0 (length (f ∷ fs))) x

  -- `next`, and so `compose( ) | f | g`.
  unfoldable pub next : List (A → A) → List (A → A) → List (A → A)
  next funcs next_functions = funcs ++ next_functions

  run_all : A → List (A → A) → A
  run_all = foldl (λ y f. f y)

  impl-last :
      (rounds pos : ℕ) (funcs : List (A → A)) (x : A)
      → function_composer_impl rounds pos funcs last_function_tag x
        ≡ (get pos funcs >>= λ f. returns (f x))
  unfolding function_composer_impl
  impl-last zero pos funcs x = refl
  impl-last (suc rounds) pos funcs x = refl

  get_here :
      (pre : List (A → A)) (f : A → A) (fs : List (A → A))
      → get (length pre) (pre ++ f ∷ fs) ≡ returns f
  unfolding get
  get_here pre f fs = rw (get_elem?-append_length pre f fs, get)

  which_type_last :
      (pre : List (A → A)) (f : A → A)
      → which_type (length pre) (length (pre ++ f ∷ [])) ≡ last_function_tag
  unfolding which_type
  which_type_last pre f = ground (arith, length-append pre (f ∷ []))

  which_type_more :
      (pre : List (A → A)) (f g : A → A) (fs : List (A → A))
      → which_type (length pre) (length (pre ++ f ∷ g ∷ fs)) ≡ function_tag
  unfolding which_type
  which_type_more pre f g fs = ground (arith, length-append pre (f ∷ g ∷ fs))

  impl-step :
      (rounds pos : ℕ) (funcs : List (A → A)) (x : A) (f : A → A)
      → get pos funcs ≡ returns f
      → function_composer_impl (suc rounds) pos funcs function_tag x
        ≡ function_composer_impl rounds (pos + 1) funcs (which_type (pos + 1) (length funcs)) (f x)
  unfolding function_composer_impl
  impl-step rounds pos funcs x f e =
      ap
        (λ o. o >>= λ k.
          function_composer_impl rounds (pos + 1) funcs (which_type (pos + 1) (length funcs)) (k x))
        e

  impl-run_all :
      (rounds : ℕ) (pre : List (A → A)) (f : A → A) (fs : List (A → A)) (x : A)
      → length fs ≤ rounds
      → function_composer_impl rounds
          (length pre)
          (pre ++ f ∷ fs)
          (which_type (length pre) (length (pre ++ f ∷ fs)))
          x
        ≡ returns (run_all (f x) fs)
  unfolding run_all
  impl-run_all rounds pre f [] x h =
      ap (λ t. function_composer_impl rounds (length pre) (pre ++ f ∷ []) t x)
        (which_type_last pre f)
      ∙ impl-last rounds (length pre) (pre ++ f ∷ []) x
      ∙ ap (λ o. o >>= λ k. returns (k x)) (get_here pre f [])
  impl-run_all zero pre f (g ∷ fs) x h = absurd (omega arith)
  impl-run_all (suc rounds) pre f (g ∷ fs) x h =
      ap (λ t. function_composer_impl (suc rounds) (length pre) (pre ++ f ∷ g ∷ fs) t x)
        (which_type_more pre f g fs)
      ∙ impl-step rounds (length pre) (pre ++ f ∷ g ∷ fs) x f (get_here pre f (g ∷ fs))
      ∙ ap₂ (λ n l. function_composer_impl rounds n l (which_type n (length l)) (f x)) next_pos
          (sym (append_assoc pre (f ∷ []) (g ∷ fs)))
      ∙ impl-run_all rounds (pre ++ f ∷ []) g fs (f x) (omega arith)
    where
      next_pos : length pre + 1 ≡ length (pre ++ f ∷ [])
      next_pos = omega (arith, length-append pre (f ∷ []))

  apply-run_all : (fs : List (A → A)) (x : A) → apply fs x ≡ returns (run_all x fs)
  unfolding apply run_all
  apply-run_all [] x = refl
  apply-run_all (f ∷ fs) x = impl-run_all (length (f ∷ fs)) [] f fs x (omega arith)

  -- A composer calls all its functions, first to last, each on the result of the one before it; a
  -- composer with more functions added by `next` is the two composers one after the other. The calls
  -- end, and no index is out of range.
  pub apply-next :
      (fs gs : List (A → A)) (x : A)
      → (apply fs x ≡ returns (foldl (λ y f. f y) x fs))
        × (apply (next fs gs) x ≡ (apply fs x >>= apply gs))
  unfolding next run_all
  apply-next fs gs x = (
    apply-run_all fs x,
    apply-run_all (fs ++ gs) x
        ∙ ap returns (foldl-append (λ y f. f y) x fs gs)
        ∙ sym (apply-run_all gs (run_all x fs))
        ∙ ap (λ o. o >>= apply gs) (sym (apply-run_all fs x)),
  )
