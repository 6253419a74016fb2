-- ===== src/Scheduler/Room.antt =====
-- When some queue has room for a task.
use native.Mathlib.Nat.{mul-suc}
use function_queue.Prelude.{
  ℕ, suc, ◌*◌, ◌≤◌, ◌<◌, ◌≡◌, refl, ap, List, [], ◌∷◌, ◌++◌, Option, none, some, Bool, true, false,
  arith, subst, sym, ◌∙◌, get_elem?-there, length, length-append, get_elem?, set, ltb,
  if◌then◌else◌, flatten, Option-cases, inl, inr, length-set,
}
use function_queue.MessageQueue.{uncons}
use function_queue.Scheduler.Cycle.{others}
use function_queue.Scheduler.Search.{push_to, take_from, first, first-hit, first-none}
use function_queue.Scheduler.Pending.{others-cover, push_to-keep, take_from-keep}

module _ {ℓ} {T : Type ℓ} (capacity : ℕ) (tsk : T) where
  -- Queue `m` has no room.
  abbrev IsFull : Option (List T) → Type 0
  IsFull none = ⊥
  IsFull (some c) = capacity ≤ length c

  all_full :
      (cs : List (List T))
      → ((m : ℕ) → m < length cs → IsFull (get_elem? cs m))
      → capacity * length cs ≤ length (flatten cs)
  all_full [] h = omega arith
  all_full (c ∷ cs) h = omega (
    arith,
    h 0 (omega arith),
    all_full cs (λ m l. h (suc m) (omega arith)),
    mul-suc capacity (length cs),
    length-append c (flatten cs),
  )

  -- `push_to` at what stands at its index.
  abbrev at : List (List T) → ℕ → List T → Bool → Option (Unit {0}) × List (List T)
  at cs m c b = if b then (some tt, set cs m (c ++ tsk ∷ [])) else (none, set cs m c)

  abbrev to : List (List T) → ℕ → Option (List T) → Option (Unit {0}) × List (List T)
  to cs m o = elim o [ none ↦ (none, cs) | some c ↦ at cs m c (ltb (length c) capacity) ]

  push_to-IsFull :
      (cs : List (List T)) (m : ℕ)
      → m < length cs
      → (push_to capacity tsk m cs).0 ≡ none
      → IsFull (get_elem? cs m)
  push_to-IsFull cs m l e =
      let (c, here) = get_elem?-there cs m l in
      subst IsFull (sym here)
        (full c (ltb (length c) capacity) refl (ap (λ o. (to cs m o).0) (sym here) ∙ e))
    where
      full :
          (c : List T) (b : Bool)
          → ltb (length c) capacity ≡ b
          → (at cs m c b).0 ≡ none
          → capacity ≤ length c
      full c true t e' = absurd (cc e')
      full c false t e' = ground (arith, t)

  -- Fewer tasks than all queues together have room for: a task finds room.
  pub first_push-room :
      (id : ℕ) (cs : List (List T))
      → length (flatten cs) < capacity * length cs
      → (first (push_to capacity tsk) (id ∷ others id (length cs)) cs).0 ≡ some tt
  first_push-room id cs h =
      elim (Option-cases (first (push_to capacity tsk) (id ∷ others id (length cs)) cs).0) [
        | inl e ↦
            let missed =
              first-none (push_to capacity tsk) (push_to-keep capacity tsk)
                (id ∷ others id (length cs)) cs e in
            absurd (
              omega (
                arith,
                h,
                all_full cs (λ m l. push_to-IsFull cs m l (
                    others-cover (λ i. (push_to capacity tsk i cs).0 ≡ none) id (length cs) m l
                      missed)),
              ))
        | inr (_, e) ↦ e
      ]

  push_to-length : (m : ℕ) (cs : List (List T)) → length (push_to capacity tsk m cs).1 ≡ length cs
  push_to-length m cs = by_queue (get_elem? cs m)
    where
      by_room : (c : List T) (b : Bool) → length (at cs m c b).1 ≡ length cs
      by_room c true = length-set cs m (c ++ tsk ∷ [])
      by_room c false = length-set cs m c

      by_queue : (o : Option (List T)) → length (to cs m o).1 ≡ length cs
      by_queue none = refl
      by_queue (some c) = by_room c (ltb (length c) capacity)

  pub first_push-length :
      (ms : List ℕ) (cs : List (List T))
      → (first (push_to capacity tsk) ms cs).0 ≡ some tt
      → length (first (push_to capacity tsk) ms cs).1 ≡ length cs
  first_push-length ms cs e =
      first-hit (push_to capacity tsk) (push_to-keep capacity tsk)
        (λ _ before after. length after ≡ length before) (λ m cs' _ hit. push_to-length m cs') ms cs
        tt e

module _ {ℓ} {T : Type ℓ} where
  take_from-length : (m : ℕ) (cs : List (List T)) → length (take_from m cs).1 ≡ length cs
  take_from-length m cs = by_queue (get_elem? cs m)
    where
      from : Option (List T) → Option T × List (List T)
      from o = elim o [ none ↦ (none, cs) | some c ↦ ((uncons c).0, set cs m (uncons c).1) ]

      by_queue : (o : Option (List T)) → length (from o).1 ≡ length cs
      by_queue none = refl
      by_queue (some c) = length-set cs m (uncons c).1

  pub first_take-length :
      (ms : List ℕ) (cs : List (List T)) (x : T)
      → (first take_from ms cs).0 ≡ some x
      → length (first take_from ms cs).1 ≡ length cs
  first_take-length ms cs x e =
      first-hit take_from take_from-keep (λ _ before after. length after ≡ length before)
        (λ m cs' y hit. take_from-length m cs') ms cs x e
