-- ===== src/TaskGroup/Counting.antt =====
-- When the latch of a group of tasks is open.
use function_queue.Prelude.{
  ℕ, zero, suc, ◌+◌, ◌<◌, ◌≡◌, refl, sym, ap, subst, ◌∙◌, Bool, true, false, List, [], ◌∷◌, arith,
  length, length-append, ◌⊎◌, inl, inr,
}
use function_queue.Latch.{fetch_sub}
use function_queue.Latch.Opening.{fetch_sub-pos}
use function_queue.TaskGroup.{
  Group, notify, st, schedule_all, create_task_group, remove, run_scheduled, run_all,
}

module _ {ℓ} {S : Type ℓ} where
  schedule_all-count :
      (tasks : List (Bool × (S → S × Bool))) (g : Group S)
      → g.count ≡ length g.scheduled + length tasks
      → g.count < 18446744073709551616
      → ((schedule_all tasks g).count ≡ length (schedule_all tasks g).scheduled)
        × ((schedule_all tasks g).count < 18446744073709551616)
  unfolding schedule_all
  schedule_all-count [] g e h = (omega arith, h)
  schedule_all-count ((true, task) ∷ tasks) g e h =
      schedule_all-count tasks (st true task g)
        (omega (arith, e, length-append g.scheduled (task ∷ []))) h
  schedule_all-count ((false, task) ∷ tasks) g e h =
      let one = fetch_sub-pos g.count (omega (arith, e)) h in
      schedule_all-count tasks (st false task g) (omega (arith, e, one)) (omega (arith, h, one))

  remove-cases :
      (k : ℕ) (ts : List (S → S × Bool))
      → ((remove k ts).0 ≡ [])
        ⊎ ((t : S → S × Bool) × ((remove k ts).0 ≡ t ∷ [])
            × (length ts ≡ suc (length (remove k ts).1)))
  remove-cases k [] = inl refl
  remove-cases zero (t ∷ ts) = inr (t, refl, refl)
  remove-cases (suc k) (t ∷ ts) = elim (remove-cases k ts) [
    | inl e ↦ inl e
    | inr (u, e, l) ↦ inr (u, e, ap suc l)
  ]

  run_scheduled-count :
      (k : ℕ) (g : Group S)
      → g.count ≡ length g.scheduled
      → g.count < 18446744073709551616
      → ((run_scheduled k g).count ≡ length (run_scheduled k g).scheduled)
        × ((run_scheduled k g).count < 18446744073709551616)
  unfolding run_scheduled
  run_scheduled-count k g e h = elim (remove-cases k g.scheduled) [
    | inl none_left ↦ (
      ap (λ r. (after r).count) none_left
          ∙ e
          ∙ sym (ap (λ r. length (after r).scheduled) none_left),
      subst (λ r. (after r).count < 18446744073709551616) (sym none_left) h,
    )
    | inr (t, taken, fewer) ↦
        let one = fetch_sub-pos g.count (omega (arith, e, fewer)) h in
        (
          ap (λ r. (after r).count) taken
              ∙ (let left : fetch_sub g.count ≡ length (remove k g.scheduled).1 =
                    omega (arith, e, fewer, one) in
                  left)
              ∙ sym (ap (λ r. length (after r).scheduled) taken),
          subst (λ r. (after r).count < 18446744073709551616) (sym taken) (omega (arith, h, one)),
        )
  ]
    where
      after : List (S → S × Bool) → Group S
      after r = elim r [
        | [] ↦ g
        | task ∷ more ↦ notify (record {
          shared = (task g.shared).0;
          count = g.count;
          scheduled = (remove k g.scheduled).1;
        })
      ]

  -- The latch of a group of fewer than `2 ^ 64` tasks counts the tasks that have been scheduled and have
  -- not run, whichever tasks were accepted, whichever threw, and in whatever order the workers take
  -- them: it opens when the last of them has run, and not before.
  pub run_all-create_task_group :
      (tasks : List (Bool × (S → S × Bool))) (s : S) (ks : List ℕ)
      → length tasks < 18446744073709551616
      → (run_all ks (create_task_group tasks s)).count
        ≡ length (run_all ks (create_task_group tasks s)).scheduled
  unfolding create_task_group
  run_all-create_task_group tasks s ks h =
      let created =
        schedule_all-count tasks (record { shared = s; count = length tasks; scheduled = [] })
          (omega arith) h in
      turns ks (create_task_group tasks s) created.0 created.1
    where
      turns :
          (ks : List ℕ) (g : Group S)
          → g.count ≡ length g.scheduled
          → g.count < 18446744073709551616
          → (run_all ks g).count ≡ length (run_all ks g).scheduled
      turns [] g e h = e
      turns (k ∷ ks) g e h =
          let (e', h') = run_scheduled-count k g e h in turns ks (run_scheduled k g) e' h'
