-- ===== src/Scheduler/Pending.antt =====
-- The tasks that are in some queue: what a push and a take do to all of them together.
use mathlib.Core.List.Permᴰ
use native.Mathlib.Decide.{ℕ_discrete}
use function_queue.Prelude.{
  All-split, All-range_from_lookup, ◌⊎◌, ℕ, zero, suc, ◌+◌, ◌-◌, ◌≤◌, ◌<◌, ◌≡◌, refl, sym, ap,
  subst, ◌∙◌, List, [], ◌∷◌, ◌++◌, Option, none, some, arith, length, Bool, true, false, get_elem?,
  set, All, ltb, if◌then◌else◌, Permᴰ, append_assoc, flatten, range_from, range, inl, inr,
}
use function_queue.MessageQueue.{uncons}
use function_queue.Scheduler.Cycle.{others}
use function_queue.Scheduler.Search.{
  first-hit, first-none, first-none_same, push_to, take_from, first,
}

pub others-cover {κ} : (P : ℕ → Type κ) (id n m : ℕ) → m < n → All P (id ∷ others id n) → P m
others-cover P id n m h (own, rest) =
    let (behind, before) = All-split P (range_from (id + 1) (n - (id + 1))) (range id) rest in
    elim (ℕ_discrete id m) [
      | yes e ↦ subst P e own
      | no ne ↦ elim (below m id) [
        | inl l ↦ All-range_from_lookup P 0 id m before (omega arith) (omega arith)
        | inr l ↦
            All-range_from_lookup P (id + 1) (n - (id + 1)) m behind (omega arith) (omega arith)
      ]
    ]
  where
    below : (a b : ℕ) → (a < b) ⊎ (b ≤ a)
    below a b = ground arith

module _ {ℓ} {T : Type ℓ} where
  set_same : (cs : List (List T)) (m : ℕ) (c : List T) → get_elem? cs m ≡ some c → set cs m c ≡ cs
  set_same [] m c e = refl
  set_same (d ∷ cs) zero c e = cc e
  set_same (d ∷ cs) (suc m) c e = ap (◌∷◌ d) (set_same cs m c e)

  -- The other queues, and queue `m` with any contents in front of them.
  flatten-set :
      (cs : List (List T)) (m : ℕ) (c : List T)
      → get_elem? cs m ≡ some c
      → (rest : List T) × Permᴰ (flatten cs) (c ++ rest)
        × ((c' : List T) → Permᴰ (flatten (set cs m c')) (c' ++ rest))
  flatten-set [] m c e = absurd (cc e)
  flatten-set (d ∷ cs) zero c e = (
    flatten cs,
    subst (λ l. Permᴰ (d ++ flatten cs) (l ++ flatten cs)) (cc e) (Permᴰ.refl (d ++ flatten cs)),
    λ c'. Permᴰ.refl (c' ++ flatten cs),
  )
  flatten-set (d ∷ cs) (suc m) c e =
      let (rest, now, after) = flatten-set cs m c e in
      (
        d ++ rest,
        swap_front c rest (flatten cs) now,
        λ c'. swap_front c' rest (flatten (set cs m c')) (after c'),
      )
    where
      swap_front : (a b l : List T) → Permᴰ l (a ++ b) → Permᴰ (d ++ l) (a ++ (d ++ b))
      swap_front a b l p = Permᴰ.trans (Permᴰ.append_left d p) (
          subst (λ k. Permᴰ (d ++ (a ++ b)) k) (append_assoc a d b)
            (subst (λ k. Permᴰ k ((a ++ d) ++ b)) (append_assoc d a b)
              (Permᴰ.append_right b (Permᴰ.append_comm d a))))

  -- A push that finds room puts the task among the others.
  push_to-perm :
      (capacity : ℕ) (tsk : T) (m : ℕ) (cs : List (List T))
      → (push_to capacity tsk m cs).0 ≡ some tt
      → Permᴰ (flatten (push_to capacity tsk m cs).1) (tsk ∷ flatten cs)
  push_to-perm capacity tsk m cs e = go (get_elem? cs m) refl e
    where
      to : Option (List T) → Option (Unit {0}) × List (List T)
      to o = elim o [
        | none ↦ (none, cs)
        | some c ↦
            if ltb (length c) capacity
            then (some tt, set cs m (c ++ tsk ∷ []))
            else (none, set cs m c)
      ]

      at : List T → Bool → Option (Unit {0}) × List (List T)
      at c b = if b then (some tt, set cs m (c ++ tsk ∷ [])) else (none, set cs m c)

      room :
          (c : List T) (b : Bool)
          → get_elem? cs m ≡ some c
          → (at c b).0 ≡ some tt
          → Permᴰ (flatten (at c b).1) (tsk ∷ flatten cs)
      room c true here e' =
          let (rest, now, after) = flatten-set cs m c here in
          Permᴰ.trans (after (c ++ tsk ∷ [])) (
            subst (λ l. Permᴰ l (tsk ∷ flatten cs)) (sym (append_assoc c (tsk ∷ []) rest))
              (Permᴰ.trans (Permᴰ.middle tsk c rest) (Permᴰ.cons refl (Permᴰ.symm now))))
      room c false here e' = absurd (cc e')

      go :
          (o : Option (List T))
          → get_elem? cs m ≡ o
          → (to o).0 ≡ some tt
          → Permᴰ (flatten (to o).1) (tsk ∷ flatten cs)
      go none here e' = absurd (cc e')
      go (some c) here e' = room c (ltb (length c) capacity) here e'

  pub push_to-keep :
      (capacity : ℕ) (tsk : T) (m : ℕ) (cs : List (List T))
      → (push_to capacity tsk m cs).0 ≡ none
      → (push_to capacity tsk m cs).1 ≡ cs
  push_to-keep capacity tsk m cs e = go (get_elem? cs m) refl e
    where
      at : List T → Bool → Option (Unit {0}) × List (List T)
      at c b = if b then (some tt, set cs m (c ++ tsk ∷ [])) else (none, set cs m c)

      full : (c : List T) (b : Bool) → get_elem? cs m ≡ some c → (at c b).0 ≡ none → (at c b).1 ≡ cs
      full c true here e' = absurd (cc e')
      full c false here e' = set_same cs m c here

      to : Option (List T) → Option (Unit {0}) × List (List T)
      to o = elim o [ none ↦ (none, cs) | some c ↦ at c (ltb (length c) capacity) ]

      go : (o : Option (List T)) → get_elem? cs m ≡ o → (to o).0 ≡ none → (to o).1 ≡ cs
      go none here e' = refl
      go (some c) here e' = full c (ltb (length c) capacity) here e'

  -- What is taken was there, and the others stay.
  take_from-perm :
      (m : ℕ) (cs : List (List T)) (x : T)
      → (take_from m cs).0 ≡ some x
      → Permᴰ (x ∷ flatten (take_from m cs).1) (flatten cs)
  take_from-perm m cs x e = go (get_elem? cs m) refl e
    where
      from : Option (List T) → Option T × List (List T)
      from o = elim o [ none ↦ (none, cs) | some c ↦ ((uncons c).0, set cs m (uncons c).1) ]

      go :
          (o : Option (List T))
          → get_elem? cs m ≡ o
          → (from o).0 ≡ some x
          → Permᴰ (x ∷ flatten (from o).1) (flatten cs)
      go none here e' = absurd (cc e')
      go (some []) here e' = absurd (cc e')
      go (some (y ∷ ys)) here e' =
          let (rest, now, after) = flatten-set cs m (y ∷ ys) here in
          Permᴰ.trans (Permᴰ.cons (cc e') (after ys)) (Permᴰ.symm now)

  pub take_from-keep :
      (m : ℕ) (cs : List (List T)) → (take_from m cs).0 ≡ none → (take_from m cs).1 ≡ cs
  take_from-keep m cs e = go (get_elem? cs m) refl e
    where
      from : Option (List T) → Option T × List (List T)
      from o = elim o [ none ↦ (none, cs) | some c ↦ ((uncons c).0, set cs m (uncons c).1) ]

      go : (o : Option (List T)) → get_elem? cs m ≡ o → (from o).0 ≡ none → (from o).1 ≡ cs
      go none here e' = refl
      go (some []) here e' = set_same cs m [] here
      go (some (y ∷ ys)) here e' = absurd (cc e')

  pub first_push-perm :
      (capacity : ℕ) (tsk : T) (ms : List ℕ) (cs : List (List T))
      → (first (push_to capacity tsk) ms cs).0 ≡ some tt
      → Permᴰ (flatten (first (push_to capacity tsk) ms cs).1) (tsk ∷ flatten cs)
  first_push-perm capacity tsk ms cs e =
      first-hit (push_to capacity tsk) (push_to-keep capacity tsk)
        (λ _ before after. Permᴰ (flatten after) (tsk ∷ flatten before))
        (λ m cs' _ hit. push_to-perm capacity tsk m cs' hit) ms cs tt e

  pub first_take-perm :
      (ms : List ℕ) (cs : List (List T)) (x : T)
      → (first take_from ms cs).0 ≡ some x
      → Permᴰ (x ∷ flatten (first take_from ms cs).1) (flatten cs)
  first_take-perm ms cs x e =
      first-hit take_from take_from-keep
        (λ y before after. Permᴰ (y ∷ flatten after) (flatten before)) take_from-perm ms cs x e

  -- The first task of a queue, if it is there and has one.
  abbrev head_of : Option (List T) → Option T
  head_of o = elim o [ none ↦ none | some c ↦ (uncons c).0 ]

  take_from-head_of : (m : ℕ) (cs : List (List T)) → (take_from m cs).0 ≡ head_of (get_elem? cs m)
  take_from-head_of m cs = go (get_elem? cs m)
    where
      from : Option (List T) → Option T × List (List T)
      from o = elim o [ none ↦ (none, cs) | some c ↦ ((uncons c).0, set cs m (uncons c).1) ]

      go : (o : Option (List T)) → (from o).0 ≡ head_of o
      go none = refl
      go (some c) = refl

  all_empty :
      (cs : List (List T))
      → ((m : ℕ) → m < length cs → head_of (get_elem? cs m) ≡ none)
      → flatten cs ≡ []
  all_empty [] h = refl
  all_empty ([] ∷ cs) h = all_empty cs (λ m l. h (suc m) (omega arith))
  all_empty ((x ∷ xs) ∷ cs) h = absurd (cc (h 0 (omega arith)))

  -- A search over all queues that finds no task shows that there is none.
  pub first_take-none :
      (id : ℕ) (cs : List (List T))
      → (first take_from (id ∷ others id (length cs)) cs).0 ≡ none
      → (flatten cs ≡ []) × ((first take_from (id ∷ others id (length cs)) cs).1 ≡ cs)
  first_take-none id cs e =
      let none_there = first-none take_from take_from-keep (id ∷ others id (length cs)) cs e in
      (
        all_empty cs (λ m l.
            sym (take_from-head_of m cs)
            ∙ others-cover (λ i. (take_from i cs).0 ≡ none) id (length cs) m l none_there),
        first-none_same take_from take_from-keep (id ∷ others id (length cs)) cs e,
      )
