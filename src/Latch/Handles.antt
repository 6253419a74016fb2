-- ===== src/Latch/Handles.antt =====
-- `unique_latch` and `shared_latch` of include/daw/fs/impl/daw_latch.h: the owners of a latch, which pass
-- each call on to it and assert that there is one. `undefined` stands for an assertion that fails.
use function_queue.Prelude.{
  ℕ, zero, suc, ◌+◌, ◌-◌, ◌≡◌, refl, sym, ap, ◌∙◌, false, List, [], ◌∷◌, Option, none, some, foldl,
  ◌==◌, if◌then◌else◌, arith, ap₂, ◌++◌, foldl-append,
}
use function_queue.Outcome.{Outcome, returns, undefined, ◌>>=◌}
use function_queue.Latch.{Latch, Step, step}

-- The `m_latch` of a `unique_latch`, and the one of the `shared_latch` objects that share it, with the
-- number of these.
pub record Owners : Type 0 where
  pub unique : Option Latch
  pub shared : Option Latch
  pub use_count : ℕ

-- `unique_latch( count )`
abbrev pub make_unique : ℕ → Owners
make_unique count = record {
  unique = some (record { count = count; waiters = [] });
  shared = none;
  use_count = 0;
}

-- A call is passed on: `add_notifier`, `notify`, `set_latch`, or a step of `wait`.
unfoldable pub call_unique : Step → Owners → Outcome Owners
unfolding step
call_unique s o = elim o.unique [
  | none ↦ undefined
  | some l ↦
      returns (record { unique = some (step l s); shared = o.shared; use_count = o.use_count })
]

unfoldable pub call_shared : Step → Owners → Outcome Owners
unfolding step
call_shared s o = elim o.shared [
  | none ↦ undefined
  | some l ↦
      returns (record { unique = o.unique; shared = some (step l s); use_count = o.use_count })
]

-- `release`: the pointer, and what is left.
abbrev pub release : Option Latch → Option Latch × Option Latch
release p = (p, none)

-- `shared_latch( unique_latch && )`
unfoldable pub share_unique : Owners → Owners
share_unique o =
    let (p, left) = release o.unique in record { unique = left; shared = p; use_count = 1 }

-- The copy constructor and the destructor of `shared_latch`; the last owner frees the latch.
abbrev pub copy_shared : Owners → Owners
copy_shared o = record { unique = o.unique; shared = o.shared; use_count = o.use_count + 1 }

abbrev pub destroy_shared : Owners → Owners
destroy_shared o = record {
  unique = o.unique;
  shared = if o.use_count == 1 then none else o.shared;
  use_count = o.use_count - 1;
}

-- What is done with the owners, first with the unique one and then with those that share the latch.
pub data SharedUse : Type 0 where
  calls : Step → SharedUse
  copies : SharedUse
  destroys : SharedUse

unfoldable pub call_all_unique : List Step → Owners → Outcome Owners
call_all_unique [] o = returns o
call_all_unique (s ∷ ss) o = call_unique s o >>= call_all_unique ss

unfoldable pub use_shared : List SharedUse → Owners → Outcome Owners
use_shared [] o = returns o
use_shared (calls s ∷ us) o = call_shared s o >>= use_shared us
use_shared (copies ∷ us) o = use_shared us (copy_shared o)
use_shared (destroys ∷ us) o = use_shared us (destroy_shared o)

-- The calls among them, and the owners that are left of `n`, if there is always one.
abbrev pub calls_of : List SharedUse → List Step
calls_of [] = []
calls_of (calls s ∷ us) = s ∷ calls_of us
calls_of (copies ∷ us) = calls_of us
calls_of (destroys ∷ us) = calls_of us

abbrev pub owners_left : ℕ → List SharedUse → Option ℕ
owners_left n [] = some n
owners_left n (calls s ∷ us) = owners_left n us
owners_left n (copies ∷ us) = owners_left (suc n) us
owners_left zero (destroys ∷ us) = none
owners_left (suc zero) (destroys ∷ us) = none
owners_left (suc (suc n)) (destroys ∷ us) = owners_left (suc n) us

abbrev pub owned_by_unique : Latch → Owners
owned_by_unique l = record { unique = some l; shared = none; use_count = 0 }

abbrev pub shared_by : ℕ → Latch → Owners
shared_by n l = record { unique = none; shared = some l; use_count = n }

call_all_unique-steps :
    (ss : List Step) (l : Latch)
    → call_all_unique ss (owned_by_unique l) ≡ returns (owned_by_unique (foldl step l ss))
unfolding call_all_unique call_unique
call_all_unique-steps [] l = refl
call_all_unique-steps (s ∷ ss) l = call_all_unique-steps ss (step l s)

one_less : (n : ℕ) (l : Latch) → destroy_shared (shared_by (suc (suc n)) l) ≡ shared_by (suc n) l
one_less n l =
    let others : (suc (suc n) == 1) ≡ false = ground arith in
    let fewer : suc (suc n) - 1 ≡ suc n = omega arith in
    ap₂ (λ b k. record { unique = none; shared = if b then none else some l; use_count = k }) others
      fewer

use_shared-steps :
    (us : List SharedUse) (n m : ℕ) (l : Latch)
    → owners_left n us ≡ some m
    → use_shared us (shared_by n l) ≡ returns (shared_by m (foldl step l (calls_of us)))
unfolding use_shared call_shared
use_shared-steps [] n m l h = let same : n ≡ m = cc h in ap (λ k. returns (shared_by k l)) same
use_shared-steps (calls s ∷ us) n m l h = use_shared-steps us n m (step l s) h
use_shared-steps (copies ∷ us) n m l h =
    let more : n + 1 ≡ suc n = omega arith in
    ap (λ k. use_shared us (shared_by k l)) more ∙ use_shared-steps us (suc n) m l h
use_shared-steps (destroys ∷ us) zero m l h = absurd (cc h)
use_shared-steps (destroys ∷ us) (suc zero) m l h = absurd (cc h)
use_shared-steps (destroys ∷ us) (suc (suc n)) m l h =
    ap (use_shared us) (one_less n l) ∙ use_shared-steps us (suc n) m l h

-- A latch that is made by a `unique_latch` and handed over to a `shared_latch`, with a copy for each
-- further owner, as long as there is an owner: what its owners see is the latch after all their calls in
-- the order in which they were made. The `unique_latch` is empty then, and a further call on it stops at
-- its assertion; the last owner of all frees the latch.
pub use_shared-share_unique :
    (count : ℕ) (ss : List Step) (us : List SharedUse) (m : ℕ)
    → owners_left 1 us ≡ some m
    → let l = foldl step (record { count = count; waiters = [] }) (ss ++ calls_of us) in
      ((call_all_unique ss (make_unique count) >>= λ o. use_shared us (share_unique o))
        ≡ returns (shared_by m l))
      × ((s : Step) → call_unique s (shared_by m l) ≡ undefined)
      × ((s : Step) → call_shared s (destroy_shared (shared_by 1 l)) ≡ undefined)
unfolding call_unique call_shared share_unique
use_shared-share_unique count ss us m h = (
  ap (λ o. o >>= λ o'. use_shared us (share_unique o'))
        (call_all_unique-steps ss (record { count = count; waiters = [] }))
      ∙ use_shared-steps us 1 m (foldl step (record { count = count; waiters = [] }) ss) h
      ∙ ap (λ l. returns (shared_by m l))
          (sym (foldl-append step (record { count = count; waiters = [] }) ss (calls_of us))),
  λ s. refl,
  λ s. refl,
)
