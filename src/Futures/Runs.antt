-- ===== src/Futures/Runs.antt =====
-- Running a task comes to an end and keeps the invariant.
use function_queue.Prelude.{
  ℕ, zero, suc, ◌≡◌, inl, inr, refl, ap, ◌∙◌, Bool, List, [], ◌∷◌, ◌++◌, Option, none, some, arith,
  length, All,
}
use function_queue.Outcome.{Outcome, returns}
use function_queue.Futures.Expected.{Expected}
use function_queue.Futures.Member.{CodeTask, code, empty_task, World, set_value, remove, run_code}
use function_queue.Futures.Invariant.{TaskOk, Aimed, Producer, by_task, by_future, Inv}
use function_queue.Futures.SetValue.{set_value-Delivers}
use function_queue.Futures.Growth.{release-Inv}

module _ {ℓ} {A : Type ℓ} where
  abbrev taken : Option (CodeTask A) → List (CodeTask A)
  taken none = []
  taken (some t) = t ∷ []

  Aimed-cons :
      (j : ℕ) (t : CodeTask A) (ts us : List (CodeTask A))
      → (Aimed j ts → Aimed j us)
      → Aimed j (t ∷ ts)
      → Aimed j (t ∷ us)
  Aimed-cons j (code f i) ts us go (inl e) = inl e
  Aimed-cons j (code f i) ts us go (inr h) = inr (go h)
  Aimed-cons j empty_task ts us go h = go h

  Aimed-swap :
      (j : ℕ) (o : Option (CodeTask A)) (t : CodeTask A) (us : List (CodeTask A))
      → Aimed j (t ∷ (taken o ++ us))
      → Aimed j (taken o ++ t ∷ us)
  Aimed-swap j none t us h = h
  Aimed-swap j (some (code f i)) (code g k) us (inl e) = inr (inl e)
  Aimed-swap j (some (code f i)) (code g k) us (inr (inl e)) = inl e
  Aimed-swap j (some (code f i)) (code g k) us (inr (inr h)) = inr (inr h)
  Aimed-swap j (some empty_task) (code g k) us h = h
  Aimed-swap j (some (code f i)) empty_task us h = h
  Aimed-swap j (some empty_task) empty_task us h = h

  Aimed-remove :
      (j k : ℕ) (ts : List (CodeTask A))
      → Aimed j ts
      → Aimed j (taken (remove k ts).0 ++ (remove k ts).1)
  Aimed-remove j k [] h = h
  Aimed-remove j zero (t ∷ ts) h = h
  Aimed-remove j (suc k) (t ∷ ts) h =
      Aimed-swap j (remove k ts).0 t (remove k ts).1
        (Aimed-cons j t ts (taken (remove k ts).0 ++ (remove k ts).1) (Aimed-remove j k ts) h)

  All-swap {ℓ'} :
      (P : CodeTask A → Type ℓ') (o : Option (CodeTask A)) (t : CodeTask A) (us : List (CodeTask A))
      → P t
      → All P (taken o ++ us)
      → All P (taken o ++ t ∷ us)
  All-swap P none t us p h = (p, h)
  All-swap P (some t') t us p (q, h) = (q, (p, h))

  All-remove {ℓ'} :
      (P : CodeTask A → Type ℓ') (k : ℕ) (ts : List (CodeTask A))
      → All P ts
      → All P (taken (remove k ts).0 ++ (remove k ts).1)
  All-remove P k [] h = h
  All-remove P zero (t ∷ ts) h = h
  All-remove P (suc k) (t ∷ ts) (h, hs) =
      All-swap P (remove k ts).0 t (remove k ts).1 h (All-remove P k ts hs)

module _ {ℓ} {A : Type ℓ} (den : ℕ → Expected A) where
  -- A worker has the task, and the list is without it.
  remove-Inv :
      (w : World A) (unset : ℕ → Bool) (k : ℕ) (o : Option (CodeTask A)) (ts : List (CodeTask A))
      → Inv den w [] unset
      → ((j : ℕ) → Aimed j w.tasks → Aimed j (taken o ++ ts))
      → All (TaskOk den (length w.members)) ts
      → Inv den (record { members = w.members; tasks = ts }) (taken o) unset
  remove-Inv w unset k o ts inv aims oks = record {
    members_ok = inv.members_ok;
    tasks_ok = oks;
    produced = λ j l h. again j (inv.produced j l h);
  }
    where
      again :
          (j : ℕ)
          → Producer w [] unset j
          → Producer (record { members = w.members; tasks = ts }) (taken o) unset j
      again j (by_task a) = by_task (aims j a)
      again j (by_future i m c l at nx b u) = by_future i m c l at nx b u

  -- An empty task sets nothing.
  release_empty-Inv :
      (w : World A) (unset : ℕ → Bool) → Inv den w (empty_task ∷ []) unset → Inv den w [] unset
  release_empty-Inv w unset inv = record {
    members_ok = inv.members_ok;
    tasks_ok = inv.tasks_ok;
    produced = λ j l h. again j (inv.produced j l h);
  }
    where
      again : (j : ℕ) → Producer w (empty_task ∷ []) unset j → Producer w [] unset j
      again j (by_task a) = by_task a
      again j (by_future i m c l at nx b u) = by_future i m c l at nx b u

  pub run_code-Inv :
      (w : World A) (unset : ℕ → Bool) (k : ℕ)
      → Inv den w [] unset
      → (w' : World A) × (unset' : ℕ → Bool) × (run_code w k ≡ returns w') × Inv den w' [] unset'
  unfolding run_code
  run_code-Inv w unset k inv =
      by_task_in_hand (remove k w.tasks).0 (remove k w.tasks).1 (λ j. Aimed-remove j k w.tasks)
        (All-remove (TaskOk den (length w.members)) k w.tasks inv.tasks_ok) refl
    where
      run : Option (CodeTask A) → List (CodeTask A) → Outcome (World A)
      run o ts =
          let w' : World A = record { members = w.members; tasks = ts } in
          elim o [
            | none ↦ returns w'
            | some empty_task ↦ returns w'
            | some (code func i) ↦ set_value (length w'.members) w' i (func tt)
          ]

      by_task_in_hand :
          (o : Option (CodeTask A)) (ts : List (CodeTask A))
          → ((j : ℕ) → Aimed j w.tasks → Aimed j (taken o ++ ts))
          → All (TaskOk den (length w.members)) (taken o ++ ts)
          → run_code w k ≡ run o ts
          → (w' : World A) × (unset' : ℕ → Bool) × (run_code w k ≡ returns w')
            × Inv den w' [] unset'
      by_task_in_hand none ts aims oks e = (
        record { members = w.members; tasks = ts },
        unset,
        e,
        remove-Inv w unset k none ts inv aims oks,
      )
      by_task_in_hand (some empty_task) ts aims (ok, oks) e = (
        record { members = w.members; tasks = ts },
        unset,
        e,
        release_empty-Inv (record { members = w.members; tasks = ts }) unset
            (remove-Inv w unset k (some empty_task) ts inv aims oks),
      )
      by_task_in_hand (some (code func i)) ts aims ((l, same), oks) e =
          let w₁ : World A = record { members = w.members; tasks = ts } in
          let (w', u', ran, d, off) =
            set_value-Delivers den (code func i ∷ []) (length w.members) w₁ unset i
              (remove-Inv w unset k (some (code func i)) ts inv aims oks) l (omega arith) in
          (
            w',
            u',
            e ∙ ap (set_value (length w.members) w₁ i) same ∙ ran,
            release-Inv den w' [] u' func i d.inv (λ h. absurd (cc (h, off))),
          )
