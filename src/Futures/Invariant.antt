-- ===== src/Futures/Invariant.antt =====
-- What holds of the futures and the tasks between two steps. `den i` is what future `i` is for: what
-- its function returns or throws, on the value of the future before it, with exceptions passed on.
-- `unset i` says that future `i` has not been set yet.
use function_queue.Prelude.{
  ℕ, ◌<◌, ◌≡◌, ◌⊎◌, Bool, true, false, List, [], ◌∷◌, ◌++◌, none, some, length, get_elem?, All,
  if◌then◌else◌, ◌==◌,
}
use function_queue.Futures.Expected.{Expected, and_then}
use function_queue.Futures.Member.{
  ready, deferred, continued, Branch, Continuation, branches, CodeTask, code, empty_task, Member,
  World,
}

module _ {ℓ} {A : Type ℓ} (den : ℕ → Expected A) where
  -- A branch of future `i`, when there are `n` futures.
  pub record BranchOk (n i : ℕ) (b : Branch A) : Type ℓ where
    pub later : i < b.target
    pub made : b.target < n
    pub follows : den b.target ≡ and_then (den i) b.func

  pub data MemberOk (n : ℕ) (unset : ℕ → Bool) (i : ℕ) (m : Member A) : Type ℓ where
    is_deferred :
        m.next ≡ none
        → m.status ≡ deferred
        → m.count ≡ 1
        → m.result ≡ none
        → unset i ≡ true
        → MemberOk n unset i m
    is_ready :
        m.next ≡ none
        → m.status ≡ ready
        → m.result ≡ some (den i)
        → unset i ≡ false
        → MemberOk n unset i m
    is_continued :
        (c : Continuation A)
        → m.next ≡ some c
        → m.status ≡ continued
        → All (BranchOk n i) (branches c)
        → MemberOk n unset i m

  abbrev pub TaskOk : ℕ → CodeTask A → Type ℓ
  TaskOk n (code func i) = (i < n) × (func tt ≡ den i)
  TaskOk n empty_task = Unit

-- A task of the list sets future `j`.
abbrev pub Aimed {ℓ} : {A : Type ℓ} → ℕ → List (CodeTask A) → Type 0
Aimed j [] = ⊥
Aimed j (code func i ∷ ts) = (i ≡ j) ⊎ Aimed j ts
Aimed j (empty_task ∷ ts) = Aimed j ts

-- A branch of the list leads to future `j`.
abbrev pub Leads {ℓ} : {A : Type ℓ} → ℕ → List (Branch A) → Type 0
Leads j [] = ⊥
Leads j (b ∷ bs) = (b.target ≡ j) ⊎ Leads j bs

-- Who will set future `j`: a task, or an earlier future that is not set itself.
pub data Producer {ℓ} {A : Type ℓ} (w : World A) (held : List (CodeTask A)) (unset : ℕ → Bool)
    (j : ℕ) : Type ℓ where
  by_task : Aimed j (held ++ w.tasks) → Producer w held unset j
  by_future :
      (i : ℕ) (m : Member A) (c : Continuation A)
      → i < j
      → get_elem? w.members i ≡ some m
      → m.next ≡ some c
      → Leads j (branches c)
      → unset i ≡ true
      → Producer w held unset j

-- `held` are the tasks that workers have taken off the list and have not done yet.
pub record Inv {ℓ} {A : Type ℓ} (den : ℕ → Expected A) (w : World A) (held : List (CodeTask A))
    (unset : ℕ → Bool) : Type ℓ where
  pub members_ok :
      (i : ℕ) (m : Member A)
      → get_elem? w.members i ≡ some m
      → MemberOk den (length w.members) unset i m
  pub tasks_ok : All (TaskOk den (length w.members)) w.tasks
  pub produced : (j : ℕ) → j < length w.members → unset j ≡ true → Producer w held unset j

-- A future that is set.
abbrev pub settle : (ℕ → Bool) → ℕ → ℕ → Bool
settle unset t j = if j == t then false else unset j
