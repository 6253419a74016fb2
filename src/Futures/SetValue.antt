-- ===== src/Futures/SetValue.antt =====
-- `set_value` and `set_exception` come to an end, and keep the invariant.
use function_queue.Prelude.{
  ℕ, zero, suc, ◌+◌, ◌≤◌, ◌<◌, ◌≡◌, inl, inr, refl, sym, ap, subst, ◌∙◌, Bool, true, false, List,
  [], ◌∷◌, ◌++◌, Option, none, some, arith, length, get_elem?, All, get_elem?-there, Option-cases,
  Bool-cases,
}
use function_queue.Outcome.{Outcome, returns, undefined, ◌>>=◌}
use function_queue.Futures.Expected.{Expected, value, exception, and_then}
use function_queue.Futures.Member.{
  Branch, Continuation, branches, CodeTask, Member, World, put, tasks_of, set_each, continue_with,
  set_value, store_member,
}
use function_queue.Futures.Invariant.{BranchOk, Leads, Inv, settle}
use function_queue.Futures.Delivery.{settle_self, settle-true, MemberOk-branches, settle-Inv}
use function_queue.Futures.Delivered.{Delivered, Delivered-trans, keep, pass_value}

module _ {ℓ} {A : Type ℓ} (den : ℕ → Expected A) (held : List (CodeTask A)) where
  -- What `set_value` promises for a future in range with enough fuel.
  abbrev Delivers : ℕ → Type ℓ
  Delivers fuel =
      (w : World A) (unset : ℕ → Bool) (t : ℕ)
      → Inv den w held unset
      → t < length w.members
      → length w.members ≤ fuel + t
      → (w' : World A) × (unset' : ℕ → Bool) × (set_value fuel w t (den t) ≡ returns w')
        × Delivered den held w unset w' unset'
        × (unset' t ≡ false)

  stays_false :
      (unset unset' : ℕ → Bool) (j : ℕ)
      → ((i : ℕ) → unset' i ≡ true → unset i ≡ true)
      → unset j ≡ false
      → unset' j ≡ false
  stays_false unset unset' j shrinks e = elim (Bool-cases (unset' j)) [
    | inl h ↦ absurd (cc (shrinks j h, e))
    | inr h ↦ h
  ]

  -- An exception goes to each future of a continuation.
  each :
      (fuel : ℕ)
      → Delivers fuel
      → (t : ℕ) → den t ≡ exception
      → (bs : List (Branch A)) (w : World A) (unset : ℕ → Bool) → Inv den w held unset
      → All (BranchOk den (length w.members) t) bs
      → length w.members ≤ suc fuel + t
      → (w' : World A) × (unset' : ℕ → Bool) × (set_each (λ k j. set_value fuel k j exception) w bs
          ≡ returns w')
        × Delivered den held w unset w' unset'
        × ((j : ℕ) → Leads j bs → unset' j ≡ false)
  each fuel one t e [] w unset inv ok f = (
    w,
    unset,
    refl,
    record { inv = inv; shrinks = λ j h. h; same_length = refl; same_next = λ i m h. (m, h, refl) },
    λ j h. elim h [ ],
  )
  each fuel one t e (b ∷ bs) w unset inv (ok, oks) f =
      let passed : den b.target ≡ exception = ok.follows ∙ ap (λ d. and_then d b.func) e in
      let (w₁, u₁, ran, d, off) = one w unset b.target inv ok.made (omega (arith, ok.later)) in
      let (w₂, u₂, ran', d', offs) =
        each fuel one t e bs w₁ u₁ d.inv
          (subst (λ n. All (BranchOk den n t) bs) (sym d.same_length) oks)
          (omega (arith, d.same_length)) in
      (
        w₂,
        u₂,
        ap (λ o. o >>= λ k. set_each (λ k' j. set_value fuel k' j exception) k bs)
              (ap (set_value fuel w b.target) (sym passed) ∙ ran)
            ∙ ran',
        Delivered-trans den held w w₁ w₂ unset u₁ u₂ d d',
        λ j l. elim l [
          | inl same ↦ stays_false u₁ u₂ j d'.shrinks (subst (λ i. u₁ i ≡ false) same off)
          | inr l' ↦ offs j l'
        ],
      )

  -- The same for the future with that continuation.
  pub pass_exception :
      (fuel : ℕ)
      → Delivers fuel
      → (w : World A) (unset : ℕ → Bool) (t : ℕ) (m : Member A) (c : Continuation A)
      → Inv den w held unset
      → get_elem? w.members t ≡ some m
      → m.next ≡ some c
      → den t ≡ exception
      → length w.members ≤ suc fuel + t
      → (w' : World A) × (unset' : ℕ → Bool) × (set_each
            (λ k j. set_value fuel k j exception)
            w
            (branches c)
          ≡ returns w')
        × Delivered den held w unset w' unset'
        × (unset' t ≡ false)
        × ((j : ℕ) → Leads j (branches c) → unset' j ≡ false)
  pass_exception fuel one w unset t m c inv at n e f =
      let bs = MemberOk-branches den (length w.members) unset t m c n (inv.members_ok t m at) in
      let (w₁, u₁, ran, d, offs) = each fuel one t e (branches c) w unset inv bs f in
      let (m₁, at₁, n₁) = d.same_next t m at in
      (
        w₁,
        settle u₁ t,
        ran,
        record {
          inv =
              settle-Inv den w₁ held u₁ t m₁ c d.inv at₁ (n₁ ∙ n)
                (λ j l h. absurd (cc (h, offs j l)));
          shrinks = λ j h. d.shrinks j (settle-true u₁ t j h).1;
          same_length = d.same_length;
          same_next = d.same_next;
        },
        settle_self u₁ t,
        λ j l. stays_false u₁ (settle u₁ t) j (λ k h. (settle-true u₁ t k h).1) (offs j l),
      )

  -- Setting a future comes to an end, whatever hangs on it.
  pub set_value-Delivers : (fuel : ℕ) → Delivers fuel
  unfolding set_value
  set_value-Delivers zero w unset t inv l f = absurd (omega arith)
  set_value-Delivers (suc fuel) w unset t inv l f =
      let (m, at) = get_elem?-there w.members t l in
      elim (Option-cases m.next) [
        | inl n ↦ (
          put w t (set_member m),
          settle unset t,
          ap found at ∙ ap (after m (den t)) n,
          keep den held w unset t m (set_member m) inv at n n refl refl,
          settle_self unset t,
        )
        | inr (c, n) ↦ continues (set_value-Delivers fuel) m c at n (den t) refl
      ]
    where
      set_member : Member A → Member A
      set_member m = store_member m (den t)

      after : Member A → Expected A → Option (Continuation A) → Outcome (World A)
      after m e o = elim o [
        | some c ↦ continue_with (λ w' j. set_value fuel w' j exception) w c e
        | none ↦ returns (put w t (store_member m e))
      ]

      found : Option (Member A) → Outcome (World A)
      found o = elim o [ none ↦ undefined | some m ↦ after m (den t) m.next ]

      continues :
          Delivers fuel
          → (m : Member A) (c : Continuation A) → get_elem? w.members t ≡ some m
          → m.next ≡ some c
          → (e : Expected A) → den t ≡ e
          → (w' : World A) × (unset' : ℕ → Bool) × (set_value (suc fuel) w t (den t) ≡ returns w')
            × Delivered den held w unset w' unset'
            × (unset' t ≡ false)
      continues one m c at n (value v) d = (
        record { members = w.members; tasks = w.tasks ++ tasks_of c v },
        settle unset t,
        ap found at ∙ ap (after m (den t)) n ∙ ap (λ e. after m e (some c)) d,
        pass_value den held w unset t m c v inv at n d,
        settle_self unset t,
      )
      continues one m c at n exception d =
          let (w₁, u₁, ran, delivered, off, offs) =
            pass_exception fuel one w unset t m c inv at n d f in
          (
            w₁,
            u₁,
            ap found at ∙ ap (after m (den t)) n ∙ ap (λ e. after m e (some c)) d ∙ ran,
            delivered,
            off,
          )
