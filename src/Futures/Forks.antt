-- ===== src/Futures/Forks.antt =====
-- `fork` on a future that is not set comes to an end and keeps the invariant.
use function_queue.Prelude.{
  ℕ, suc, ◌+◌, ◌≤◌, ◌<◌, ◌≡◌, ◌⊎◌, inl, inr, refl, sym, ap, subst, ◌∙◌, Bool, true, List, [], ◌∷◌,
  ◌++◌, map, Option, none, some, arith, length, get_elem?, All, append_assoc, length-append,
  get_elem?-set_self, get_elem?-lt, append-nil, length-map,
}
use function_queue.Outcome.{Outcome, returns, undefined}
use function_queue.Latch.{fetch_sub}
use function_queue.Futures.Expected.{Expected, exception, and_then}
use function_queue.Futures.Member.{
  continued, Branch, Continuation, then_all, CodeTask, code, Member, World, new_member, put,
  fork_branches, fork,
}
use function_queue.Futures.Invariant.{BranchOk, Aimed, Leads, Producer, by_task, by_future, Inv}
use function_queue.Futures.Growth.{
  get_elem?-append_left, raise, raise_ne, grown, grown-Inv, chain-Inv,
}

module _ {ℓ} {A : Type ℓ} (den : ℕ → Expected A) where
  -- Each branch gives its new future what the function makes of the forked one.
  abbrev pub Follows : ℕ → List (Branch A) → Type ℓ
  Follows i = All (λ b. den b.target ≡ and_then (den i) b.func)

  spare : Unit {0} → Expected A
  spare x = exception

  -- The tasks that stand for whoever will set the new futures.
  abbrev spares : ℕ → List (A → Expected A) → List (CodeTask A) → List (CodeTask A)
  spares n [] held = held
  spares n (f ∷ fs) held = spares (suc n) fs (code spare n ∷ held)

  abbrev grown_all : World A → List (A → Expected A) → World A
  grown_all w fs = record { members = w.members ++ map (λ _. new_member) fs; tasks = w.tasks }

  Aimed-spares :
      (j n : ℕ) (fs : List (A → Expected A)) (held ts : List (CodeTask A))
      → Aimed j (spares n fs held ++ ts)
      → Leads j (fork_branches n fs) ⊎ Aimed j (held ++ ts)
  Aimed-spares j n [] held ts h = inr h
  Aimed-spares j n (f ∷ fs) held ts h =
      elim (Aimed-spares j (suc n) fs (code spare n ∷ held) ts h) [
        | inl l ↦ inl (inr l)
        | inr (inl e) ↦ inl (inl e)
        | inr (inr a) ↦ inr a
      ]

  grown_all-Inv :
      (fs : List (A → Expected A)) (w : World A) (held : List (CodeTask A)) (unset : ℕ → Bool)
      (n : ℕ)
      → n ≡ length w.members
      → Inv den w held unset
      → (unset' : ℕ → Bool) × Inv den (grown_all w fs) (spares n fs held) unset'
        × ((j : ℕ) → j < n → unset' j ≡ unset j)
  grown_all-Inv [] w held unset n e inv = (
    unset,
    subst (λ ms. Inv den (record { members = ms; tasks = w.tasks }) held unset)
        (sym (append-nil w.members)) inv,
    λ j l. refl,
  )
  grown_all-Inv (f ∷ fs) w held unset n e inv =
      let (u', inv', same) =
        grown_all-Inv fs (grown den w) (code spare n ∷ held) (raise unset n) (suc n)
          (omega (arith, length-append w.members (new_member ∷ [])))
          (subst (λ k. Inv den (grown den w) (code spare k ∷ held) (raise unset k)) (sym e)
            (grown-Inv den w held unset spare inv)) in
      (
        u',
        subst (λ ms. Inv den (record { members = ms; tasks = w.tasks }) (spares n (f ∷ fs) held) u')
            (append_assoc w.members (new_member ∷ []) (map (λ _. new_member) fs)) inv',
        λ j l. same j (omega arith) ∙ raise_ne unset n j (omega arith),
      )

  fork_branches-Ok :
      (i n total : ℕ) (fs : List (A → Expected A))
      → i < n
      → n + length fs ≤ total
      → Follows i (fork_branches n fs)
      → All (BranchOk den total i) (fork_branches n fs)
  fork_branches-Ok i n total [] l t h = tt
  fork_branches-Ok i n total (f ∷ fs) l t (h, hs) = (
    record { later = l; made = omega arith; follows = h },
    fork_branches-Ok i (suc n) total fs (omega arith) (omega arith) hs,
  )

  later_of : (i x n : ℕ) (fs : List (A → Expected A)) → i < n → Leads x (fork_branches n fs) → i < x
  later_of i x n [] l h = elim h [ ]
  later_of i x n (f ∷ fs) l (inl e) = omega arith
  later_of i x n (f ∷ fs) l (inr h) = later_of i x (suc n) fs (omega arith) h

  pub fork-Inv :
      (w : World A) (unset : ℕ → Bool) (i : ℕ) (m : Member A) (funcs : List (A → Expected A))
      → Inv den w [] unset
      → get_elem? w.members i ≡ some m
      → m.next ≡ none
      → unset i ≡ true
      → Follows i (fork_branches (length w.members) funcs)
      → (w' : World A) × (unset' : ℕ → Bool) × (fork w i funcs
          ≡ returns (map (λ b. b.target) (fork_branches (length w.members) funcs), w'))
        × Inv den w' [] unset'
  unfolding fork
  fork-Inv w unset i m funcs inv at n not_set follows =
      let (u', inv', same) = grown_all-Inv funcs w [] unset j refl inv in
      (
        w',
        u',
        ap found at ∙ ap (check_next m) n,
        released u' same (
            chain-Inv den (grown_all w funcs) (spares j funcs []) u' i m m' (then_all bs) inv' at' n
              refl refl
              (fork_branches-Ok i j (length (grown_all w funcs).members) funcs i_lt lengths
                follows)),
      )
    where
      j : ℕ
      j = length w.members

      bs : List (Branch A)
      bs = fork_branches j funcs

      m' : Member A
      m' = record {
        next = some (then_all bs);
        count = fetch_sub m.count;
        status = continued;
        result = m.result;
      }

      w' : World A
      w' = put (grown_all w funcs) i m'

      i_lt : i < j
      i_lt = get_elem?-lt w.members i m at

      at' : get_elem? (grown_all w funcs).members i ≡ some m
      at' = get_elem?-append_left w.members (map (λ _. new_member) funcs) i m at

      lengths : j + length funcs ≤ length (grown_all w funcs).members
      lengths = omega (
        arith,
        length-append w.members (map (λ _. new_member) funcs),
        length-map (λ (f : A → Expected A). new_member {A = A}) funcs,
      )

      check_next : Member A → Option (Continuation A) → Outcome (List ℕ × World A)
      check_next k o = elim o [
        | some c ↦ undefined
        | none ↦ returns (
          map (λ b. b.target) bs,
          put (grown_all w funcs) i (record {
            next = some (then_all bs);
            count = fetch_sub k.count;
            status = continued;
            result = k.result;
          }),
        )
      ]

      found : Option (Member A) → Outcome (List ℕ × World A)
      found o = elim o [ none ↦ undefined | some k ↦ check_next k k.next ]

      released :
          (u' : ℕ → Bool)
          → ((x : ℕ) → x < j → u' x ≡ unset x)
          → Inv den w' (spares j funcs []) u'
          → Inv den w' [] u'
      released u' same inv' = record {
        members_ok = inv'.members_ok;
        tasks_ok = inv'.tasks_ok;
        produced = λ x l h. again x (inv'.produced x l h);
      }
        where
          there : get_elem? w'.members i ≡ some m'
          there =
              get_elem?-set_self (grown_all w funcs).members i m'
                (get_elem?-lt (grown_all w funcs).members i m at')

          again : (x : ℕ) → Producer w' (spares j funcs []) u' x → Producer w' [] u' x
          again x (by_task a) = elim (Aimed-spares x j funcs [] w.tasks a) [
            | inl l ↦
                by_future i m' (then_all bs) (later_of i x j funcs i_lt l) there refl l
                  (same i i_lt ∙ not_set)
            | inr a' ↦ by_task a'
          ]
          again x (by_future y k c l h nx b u) = by_future y k c l h nx b u
