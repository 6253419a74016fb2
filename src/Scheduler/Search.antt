-- ===== src/Scheduler/Search.antt =====
-- The search through the queues for room or for a task, on the contents of the queues, and that the
-- loops over the queues follow it.
use function_queue.Prelude.{
  ℕ, zero, suc, ◌<◌, ◌≡◌, refl, sym, ap, subst, ◌∙◌, List, [], ◌∷◌, ◌++◌, map, Option, none, some,
  arith, length, get_elem?, set, All, ltb, if◌then◌else◌, Option-cases, inl, inr, length-set,
}
use function_queue.Outcome.{Outcome, returns, ◌>>=◌}
use function_queue.MessageQueue.{LockfreeQueue, uncons, try_push_back, try_pop_front}
use function_queue.MessageQueue.Fifo.{
  try_push_back-result, try_push_back-contents, try_pop_front-result, try_pop_front-contents,
}
use function_queue.Scheduler.{Task, push_at, pop_at}
use function_queue.Scheduler.Cycle.{for_indices}

module _ {ℓ} {T : Type ℓ} where
  -- A task goes behind the others of queue `m`, if there is room.
  abbrev pub push_to : ℕ → T → ℕ → List (List T) → Option (Unit {0}) × List (List T)
  push_to capacity tsk m cs = elim (get_elem? cs m) [
    | none ↦ (none, cs)
    | some c ↦
        if ltb (length c) capacity then (some tt, set cs m (c ++ tsk ∷ [])) else (none, set cs m c)
  ]

  -- The first task of queue `m` is taken, if there is one.
  abbrev pub take_from : ℕ → List (List T) → Option T × List (List T)
  take_from m cs = elim (get_elem? cs m) [
    | none ↦ (none, cs)
    | some c ↦ ((uncons c).0, set cs m (uncons c).1)
  ]

  -- The queues in turn, up to the first where `g` has a result.
  abbrev pub first {κ} :
      {R : Type κ}
      → (ℕ → List (List T) → Option R × List (List T))
      → List ℕ
      → List (List T)
      → Option R × List (List T)
  first g [] cs = (none, cs)
  first g (m ∷ ms) cs =
      let (r, cs') = g m cs in elim r [ none ↦ first g ms cs' | some x ↦ (some x, cs') ]

module _ {ℓ κ} {T : Type ℓ} {R : Type κ} (g : ℕ → List (List T) → Option R × List (List T)) where
  abbrev answer : List ℕ → Option R → List (List T) → Option R × List (List T)
  answer ms r cs = elim r [ none ↦ first g ms cs | some x ↦ (some x, cs) ]

  pub first-missed :
      (m : ℕ) (ms : List ℕ) (cs : List (List T))
      → (g m cs).0 ≡ none
      → first g (m ∷ ms) cs ≡ first g ms (g m cs).1
  first-missed m ms cs e = ap (λ r. answer ms r (g m cs).1) e

  pub first-found :
      (m : ℕ) (ms : List ℕ) (cs : List (List T)) (x : R)
      → (g m cs).0 ≡ some x
      → first g (m ∷ ms) cs ≡ (some x, (g m cs).1)
  first-found m ms cs x e = ap (λ r. answer ms r (g m cs).1) e

  module _ (keep : (m : ℕ) (cs : List (List T)) → (g m cs).0 ≡ none → (g m cs).1 ≡ cs) where
    -- Whatever holds of a hit holds of the whole search, since misses change nothing.
    pub first-hit {μ} :
        (P : R → List (List T) → List (List T) → Type μ)
        → ((m : ℕ) (cs : List (List T)) (x : R) → (g m cs).0 ≡ some x → P x cs (g m cs).1)
        → (ms : List ℕ) (cs : List (List T)) (x : R) → (first g ms cs).0 ≡ some x
        → P x cs (first g ms cs).1
    first-hit P hit [] cs x e = absurd (cc e)
    first-hit P hit (m ∷ ms) cs x e = elim (Option-cases (g m cs).0) [
      | inl n ↦
          let same : first g (m ∷ ms) cs ≡ first g ms cs =
            first-missed m ms cs n ∙ ap (first g ms) (keep m cs n) in
          subst (λ r. P x cs r.1) (sym same)
            (first-hit P hit ms cs x (ap (λ r. r.0) (sym same) ∙ e))
      | inr (y, n) ↦
          let same = first-found m ms cs y n in
          subst (λ r. P x cs r.1) (sym same) (hit m cs x (n ∙ ap (λ r. r.0) (sym same) ∙ e))
    ]

    pub first-none :
        (ms : List ℕ) (cs : List (List T))
        → (first g ms cs).0 ≡ none
        → All (λ m. (g m cs).0 ≡ none) ms
    first-none [] cs e = tt
    first-none (m ∷ ms) cs e = elim (Option-cases (g m cs).0) [
      | inl n ↦
          let same : first g (m ∷ ms) cs ≡ first g ms cs =
            first-missed m ms cs n ∙ ap (first g ms) (keep m cs n) in
          (n, first-none ms cs (ap (λ r. r.0) (sym same) ∙ e))
      | inr (y, n) ↦ absurd (cc (ap (λ r. r.0) (first-found m ms cs y n), e))
    ]

    pub first-none_same :
        (ms : List ℕ) (cs : List (List T)) → (first g ms cs).0 ≡ none → (first g ms cs).1 ≡ cs
    first-none_same [] cs e = refl
    first-none_same (m ∷ ms) cs e = elim (Option-cases (g m cs).0) [
      | inl n ↦
          let same : first g (m ∷ ms) cs ≡ first g ms cs =
            first-missed m ms cs n ∙ ap (first g ms) (keep m cs n) in
          ap (λ r. r.1) same ∙ first-none_same ms cs (ap (λ r. r.0) (sym same) ∙ e)
      | inr (y, n) ↦ absurd (cc (ap (λ r. r.0) (first-found m ms cs y n), e))
    ]

-- `body` does to the queues what `g` does to their contents, for indices in range.
abbrev pub Follows {ℓ κ μ} :
    {Q : Type κ} {T : Type ℓ} {R : Type μ}
    → (Q → List T)
    → (ℕ → List Q → Outcome (Option R × List Q))
    → (ℕ → List (List T) → Option R × List (List T))
    → Type (ℓ ⊔ κ ⊔ μ)
Follows {Q = Q} contents body g =
    (m : ℕ) (qs : List Q)
    → m < length qs
    → (qs' : List Q) × (body m qs ≡ returns ((g m (map contents qs)).0, qs'))
      × (map contents qs' ≡ (g m (map contents qs)).1)
      × (length qs' ≡ length qs)

get_elem?-map {ℓ κ} :
    {A : Type ℓ} {B : Type κ} (f : A → B) (xs : List A) (m : ℕ)
    → m < length xs
    → (x : A) × (get_elem? xs m ≡ some x) × (get_elem? (map f xs) m ≡ some (f x))
get_elem?-map f [] m h = absurd (omega arith)
get_elem?-map f (x ∷ xs) zero h = (x, refl, refl)
get_elem?-map f (x ∷ xs) (suc m) h = get_elem?-map f xs m (omega arith)

map-set {ℓ κ} :
    {A : Type ℓ} {B : Type κ} (f : A → B) (xs : List A) (m : ℕ) (y : A)
    → map f (set xs m y) ≡ set (map f xs) m (f y)
map-set f [] m y = refl
map-set f (x ∷ xs) zero y = refl
map-set f (x ∷ xs) (suc m) y = ap (◌∷◌ (f x)) (map-set f xs m y)

module _ {ℓ κ} {Q : Type κ} {F : Type ℓ} (lf : LockfreeQueue Q (Task F)) where
  open lf use {capacity, contents}

  pub push_at-Follows : (tsk : Task F) → Follows contents (push_at lf tsk) (push_to capacity tsk)
  unfolding push_at
  push_at-Follows tsk m qs h =
      let (q, here, there) = get_elem?-map contents qs m h in
      let q' = (try_push_back lf tsk q).1 in
      (
        set qs m q',
        ground (arith, here, there, try_push_back-result lf tsk q),
        map-set contents qs m q'
            ∙ ap (set (map contents qs) m) (try_push_back-contents lf tsk q)
            ∙ ground (arith, there),
        length-set qs m q',
      )

  pub pop_at-Follows : Follows contents (pop_at lf) take_from
  unfolding pop_at
  pop_at-Follows m qs h =
      let (q, here, there) = get_elem?-map contents qs m h in
      let q' = (try_pop_front lf q).1 in
      (
        set qs m q',
        ground (arith, here, there, try_pop_front-result lf q),
        map-set contents qs m q'
            ∙ ap (set (map contents qs) m) (try_pop_front-contents lf q)
            ∙ ground (arith, there),
        length-set qs m q',
      )

  -- A loop over indices in range follows the search through the contents.
  pub for_indices-first {μ} :
      {R : Type μ} (body : ℕ → List Q → Outcome (Option R × List Q))
      (g : ℕ → List (List (Task F)) → Option R × List (List (Task F)))
      → Follows contents body g
      → (ms : List ℕ) (qs : List Q) → All (λ m. m < length qs) ms
      → (qs' : List Q) × (for_indices body ms qs ≡ returns ((first g ms (map contents qs)).0, qs'))
        × (map contents qs' ≡ (first g ms (map contents qs)).1)
        × (length qs' ≡ length qs)
  for_indices-first body g follows [] qs h = (qs, refl, refl, refl)
  for_indices-first {R = R} body g follows (m ∷ ms) qs (h, hs) =
      let (qs₁, ran, held, size) = follows m qs h in
      elim (Option-cases (g m (map contents qs)).0) [
        | inl e ↦
            let (qs₂, rest, held₂, size₂) =
              for_indices-first body g follows ms qs₁
                (subst (λ n. All (λ i. i < n) ms) (sym size) hs) in
            (
              qs₂,
              ap
                    (λ o. o >>= λ (r, s'). elim r [
                      | none ↦ for_indices body ms s'
                      | some x ↦ returns (some x, s')
                    ])
                    (ran ∙ ap (λ r. returns (r, qs₁)) e)
                  ∙ rest
                  ∙ ap (λ cs. returns ((first g ms cs).0, qs₂)) held
                  ∙ ap (λ r. returns (r.0, qs₂)) (sym (first-missed g m ms (map contents qs) e)),
              held₂
                  ∙ ap (λ cs. (first g ms cs).1) held
                  ∙ ap (λ r. r.1) (sym (first-missed g m ms (map contents qs) e)),
              size₂ ∙ size,
            )
        | inr (x, e) ↦ (
          qs₁,
          ap
                (λ o. o >>= λ (r, s'). elim r [
                  | none ↦ for_indices body ms s'
                  | some x ↦ returns (some x, s')
                ])
                (ran ∙ ap (λ r. returns (r, qs₁)) e)
              ∙ ap (λ r. returns (r.0, qs₁)) (sym (first-found g m ms (map contents qs) x e)),
          held ∙ ap (λ r. r.1) (sym (first-found g m ms (map contents qs) x e)),
          size,
        )
      ]
