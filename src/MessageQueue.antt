-- ===== src/MessageQueue.antt =====
-- `mpmc_bounded_queue` of include/daw/fs/message_queue.h over `boost::lockfree::queue`, which is a
-- parameter: the state of a queue, its operations, and what its documentation promises of them when
-- one thread at a time is in an operation.
pub mod Fifo
pub mod Examples
use function_queue.Prelude.{
  ℕ, ◌+◌, ◌≡◌, Bool, true, false, not, List, [], ◌∷◌, ◌++◌, Option, none, some, length, ltb,
  if◌then◌else◌,
}

-- The first item and the rest.
abbrev pub uncons {ℓ} : {A : Type ℓ} → List A → Option A × List A
uncons [] = (none, [])
uncons (x ∷ xs) = (some x, xs)

-- A queue with a fixed capacity: a push fails if and only if it is full.
pub record LockfreeQueue {ℓ κ} (Q : Type κ) (T : Type ℓ) : Type (ℓ ⊔ κ) where
  pub capacity : ℕ
  pub contents : Q → List T
  pub push : T → Q → Bool × Q
  pub pop : Q → Option T × Q
  pub push-result : (x : T) (q : Q) → (push x q).0 ≡ ltb (length (contents q)) capacity
  pub push-contents :
      (x : T) (q : Q)
      → contents (push x q).1
        ≡ (if ltb (length (contents q)) capacity then contents q ++ x ∷ [] else contents q)
  pub pop-result : (q : Q) → (pop q).0 ≡ (uncons (contents q)).0
  pub pop-contents : (q : Q) → contents (pop q).1 ≡ (uncons (contents q)).1

pub data PushBackResult : Type 0 where
  failed success : PushBackResult

-- What a loop that may block has come to after the given rounds.
pub data Waited {ℓ} (A : Type ℓ) : Type ℓ where
  returned : A → Waited A
  waiting : Waited A

-- A round of a loop that waits: what `can_continue` answers, and what other threads have done to the
-- queue since the round before.
abbrev pub Round {κ} : Type κ → Type κ
Round Q = Bool × (Q → Q)

module _ {ℓ κ} {Q : Type κ} {T : Type ℓ} (lf : LockfreeQueue Q T) where
  -- The caller keeps its task if the push has failed, and has released it otherwise.
  unfoldable pub try_push_back : T → Q → PushBackResult × Q
  try_push_back ptr q =
      let (pushed, q') = lf.push ptr q in if not pushed then (failed, q') else (success, q')

  unfoldable pub try_pop_front : Q → Option T × Q
  try_pop_front q =
      let (popped, q') = lf.pop q in
      elim popped [ none ↦ (none, q') | some result ↦ (some result, q') ]

  unfoldable pub pop_front : List (Round Q) → Q → Waited (Option T) × Q
  pop_front [] q = (waiting, q)
  pop_front ((can_continue, others) ∷ rounds) q = elim can_continue [
    | false ↦ (returned none, others q)
    | true ↦
        let (popped, q') = lf.pop (others q) in
        elim popped [ none ↦ pop_front rounds q' | some result ↦ (returned (some result), q') ]
  ]

  unfoldable pub push_back : List (Round Q) → T → Q → Waited PushBackResult × Q
  push_back [] ptr q = (waiting, q)
  push_back ((can_continue, others) ∷ rounds) ptr q = elim can_continue [
    | false ↦ (returned failed, others q)
    | true ↦
        let (pushed, q') = lf.push ptr (others q) in
        elim pushed [ false ↦ push_back rounds ptr q' | true ↦ (returned success, q') ]
  ]
