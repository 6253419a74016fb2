-- ===== src/MessageQueue/Fifo.antt =====
-- What the operations of `mpmc_bounded_queue` do to the contents of the queue.
use function_queue.Prelude.{
  ℕ, ◌≤◌, ◌≡◌, refl, sym, ap, subst, ◌∙◌, List, [], ◌∷◌, ◌++◌, Option, none, some, arith, length,
  ltb, if◌then◌else◌, length-append, Bool-cases, inl, inr, append_assoc, append-nil,
}
use function_queue.MessageQueue.{
  LockfreeQueue, PushBackResult, failed, success, uncons, try_push_back, try_pop_front,
}

-- A call of a thread, and its answer.
pub data Call {ℓ} (T : Type ℓ) : Type ℓ where
  pushes : T → Call T
  pops : Call T

pub data Reply {ℓ} (T : Type ℓ) : Type ℓ where
  pushed : PushBackResult → Reply T
  popped : Option T → Reply T

module _ {ℓ} {T : Type ℓ} where
  -- A bounded first-in-first-out list.
  abbrev pub bounded_call : ℕ → Call T → List T → Reply T × List T
  bounded_call capacity (pushes x) ys =
      if ltb (length ys) capacity then (pushed success, ys ++ x ∷ []) else (pushed failed, ys)
  bounded_call capacity pops [] = (popped none, [])
  bounded_call capacity pops (y ∷ ys) = (popped (some y), ys)

  abbrev pub bounded_call_all : ℕ → List (Call T) → List T → List (Reply T) × List T
  bounded_call_all capacity [] ys = ([], ys)
  bounded_call_all capacity (c ∷ cs) ys =
      let (r, ys') = bounded_call capacity c ys in
      let (rs, ys'') = bounded_call_all capacity cs ys' in (r ∷ rs, ys'')

  -- The item of a push that was answered with `success`.
  abbrev pub accepted_one : Call T → Reply T → List T
  accepted_one (pushes x) (pushed success) = x ∷ []
  accepted_one (pushes x) (pushed failed) = []
  accepted_one (pushes x) (popped r) = []
  accepted_one pops r = []

  abbrev pub accepted : List (Call T) → List (Reply T) → List T
  accepted [] rs = []
  accepted (c ∷ cs) [] = []
  accepted (c ∷ cs) (r ∷ rs) = accepted_one c r ++ accepted cs rs

  -- The items that pops were answered with.
  abbrev pub answered_one : Reply T → List T
  answered_one (pushed r) = []
  answered_one (popped none) = []
  answered_one (popped (some x)) = x ∷ []

  abbrev pub answered : List (Reply T) → List T
  answered [] = []
  answered (r ∷ rs) = answered_one r ++ answered rs

  bounded_call-pops :
      (capacity : ℕ) (ys : List T)
      → bounded_call capacity pops ys ≡ (popped (uncons ys).0, (uncons ys).1)
  bounded_call-pops capacity [] = refl
  bounded_call-pops capacity (y ∷ ys) = refl

  bounded_call-keeps :
      (capacity : ℕ) (c : Call T) (ys : List T)
      → length ys ≤ capacity
      → (ys ++ accepted_one c (bounded_call capacity c ys).0
          ≡ answered_one (bounded_call capacity c ys).0 ++ (bounded_call capacity c ys).1)
        × (length (bounded_call capacity c ys).1 ≤ capacity)
  bounded_call-keeps capacity (pushes x) ys h = elim (Bool-cases (ltb (length ys) capacity)) [
    | inl room ↦ (ground (arith, room), ground (arith, room, length-append ys (x ∷ [])))
    | inr full ↦ (ground (arith, full, append-nil ys), ground (arith, full))
  ]
  bounded_call-keeps capacity pops [] h = (refl, h)
  bounded_call-keeps capacity pops (y ∷ ys) h = (append-nil (y ∷ ys), omega arith)

  bounded_call_all-keeps :
      (capacity : ℕ) (cs : List (Call T)) (ys : List T)
      → length ys ≤ capacity
      → (ys ++ accepted cs (bounded_call_all capacity cs ys).0
          ≡ answered (bounded_call_all capacity cs ys).0 ++ (bounded_call_all capacity cs ys).1)
        × (length (bounded_call_all capacity cs ys).1 ≤ capacity)
  bounded_call_all-keeps capacity [] ys h = (append-nil ys, h)
  bounded_call_all-keeps capacity (c ∷ cs) ys h =
      let r = (bounded_call capacity c ys).0 in
      let ys' = (bounded_call capacity c ys).1 in
      let (one, bound) = bounded_call-keeps capacity c ys h in
      let (rest, bound') = bounded_call_all-keeps capacity cs ys' bound in
      let rs = (bounded_call_all capacity cs ys').0 in
      (
        sym (append_assoc ys (accepted_one c r) (accepted cs rs))
            ∙ ap (λ l. l ++ accepted cs rs) one
            ∙ append_assoc (answered_one r) ys' (accepted cs rs)
            ∙ ap (◌++◌ (answered_one r)) rest
            ∙ sym
                (append_assoc (answered_one r) (answered rs) (bounded_call_all capacity cs ys').1),
        bound',
      )

module _ {ℓ κ} {Q : Type κ} {T : Type ℓ} (lf : LockfreeQueue Q T) where
  open lf use {capacity, contents, push-result, push-contents, pop-result, pop-contents}

  pub try_push_back-result :
      (x : T) (q : Q)
      → (try_push_back lf x q).0 ≡ (if ltb (length (contents q)) capacity then success else failed)
  unfolding try_push_back
  try_push_back-result x q = ground (arith, push-result x q)

  pub try_push_back-contents :
      (x : T) (q : Q)
      → contents (try_push_back lf x q).1
        ≡ (if ltb (length (contents q)) capacity then contents q ++ x ∷ [] else contents q)
  unfolding try_push_back
  try_push_back-contents x q = ground (arith, push-contents x q)

  pub try_pop_front-result : (q : Q) → (try_pop_front lf q).0 ≡ (uncons (contents q)).0
  unfolding try_pop_front
  try_pop_front-result q = ground (arith, pop-result q)

  pub try_pop_front-contents : (q : Q) → contents (try_pop_front lf q).1 ≡ (uncons (contents q)).1
  unfolding try_pop_front
  try_pop_front-contents q = ground (arith, pop-contents q)

  -- The calls of several threads, one after the other, and what they answer.
  abbrev pub call : Call T → Q → Reply T × Q
  call (pushes x) q = let (r, q') = try_push_back lf x q in (pushed r, q')
  call pops q = let (r, q') = try_pop_front lf q in (popped r, q')

  abbrev pub call_all : List (Call T) → Q → List (Reply T) × Q
  call_all [] q = ([], q)
  call_all (c ∷ cs) q = let (r, q') = call c q in let (rs, q'') = call_all cs q' in (r ∷ rs, q'')

  call-bounded :
      (c : Call T) (q : Q)
      → ((call c q).0 ≡ (bounded_call capacity c (contents q)).0)
        × (contents (call c q).1 ≡ (bounded_call capacity c (contents q)).1)
  call-bounded (pushes x) q = elim (Bool-cases (ltb (length (contents q)) capacity)) [
    | inl room ↦ (
      ap pushed (try_push_back-result x q) ∙ ground (arith, room),
      try_push_back-contents x q ∙ ground (arith, room),
    )
    | inr full ↦ (
      ap pushed (try_push_back-result x q) ∙ ground (arith, full),
      try_push_back-contents x q ∙ ground (arith, full),
    )
  ]
  call-bounded pops q =
      let same = bounded_call-pops capacity (contents q) in
      (
        ap popped (try_pop_front-result q) ∙ sym (ap (λ p. p.0) same),
        try_pop_front-contents q ∙ sym (ap (λ p. p.1) same),
      )

  call_all-bounded :
      (cs : List (Call T)) (q : Q)
      → ((call_all cs q).0 ≡ (bounded_call_all capacity cs (contents q)).0)
        × (contents (call_all cs q).1 ≡ (bounded_call_all capacity cs (contents q)).1)
  call_all-bounded [] q = (refl, refl)
  call_all-bounded (c ∷ cs) q =
      let (r, held) = call-bounded c q in
      let (rs, left) = call_all-bounded cs (call c q).1 in
      (
        ap (λ x. x ∷ (call_all cs (call c q).1).0) r
            ∙ ap (◌∷◌ (bounded_call capacity c (contents q)).0)
                (rs ∙ ap (λ ys. (bounded_call_all capacity cs ys).0) held),
        left ∙ ap (λ ys. (bounded_call_all capacity cs ys).1) held,
      )

  -- For every sequence of calls of `try_push_back` and `try_pop_front`, on a queue that is not over its
  -- capacity: all answers are those of a bounded first-in-first-out list, and what is left in the queue
  -- is what is left in the list. What was in the queue, followed by the items whose pushes answered
  -- `success`, is what the pops answered with, followed by what is left: no item that was accepted is
  -- lost, doubled or overtaken, and no item that was refused comes out. The queue is never over its
  -- capacity.
  pub call_all-refines :
      (cs : List (Call T)) (q : Q)
      → length (contents q) ≤ capacity
      → ((call_all cs q).0 ≡ (bounded_call_all capacity cs (contents q)).0)
        × (contents (call_all cs q).1 ≡ (bounded_call_all capacity cs (contents q)).1)
        × (contents q ++ accepted cs (call_all cs q).0
            ≡ answered (call_all cs q).0 ++ contents (call_all cs q).1)
        × (length (contents (call_all cs q).1) ≤ capacity)
  call_all-refines cs q h =
      let (rs, left) = call_all-bounded cs q in
      let (kept, bound) = bounded_call_all-keeps capacity cs (contents q) h in
      (
        rs,
        left,
        ap (λ r. contents q ++ accepted cs r) rs
            ∙ kept
            ∙ ap (λ r. answered r ++ (bounded_call_all capacity cs (contents q)).1) (sym rs)
            ∙ ap (◌++◌ (answered (call_all cs q).0)) (sym left),
        subst (λ ys. length ys ≤ capacity) (sym left) bound,
      )
