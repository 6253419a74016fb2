-- ===== src/Futures/Delivered.antt =====
-- What setting futures comes to, and the two ways in which one future is set.
use native.Mathlib.Decide.{ℕ_discrete}
use function_queue.Prelude.{
  ℕ, ◌<◌, ◌≡◌, ◌≢◌, refl, sym, ap, subst, ◌∙◌, Bool, true, false, List, ◌++◌, none, some, length,
  get_elem?, set, All, All-append, length-set, get_elem?-set_self, get_elem?-set_ne, get_elem?-lt,
}
use function_queue.Futures.Expected.{Expected, value}
use function_queue.Futures.Member.{ready, Continuation, CodeTask, Member, World, put, tasks_of}
use function_queue.Futures.Invariant.{
  MemberOk, is_ready, TaskOk, Producer, by_task, by_future, Inv, settle,
}
use function_queue.Futures.Delivery.{
  settle_ne, settle_self, settle-true, Aimed-right, Aimed-more, Aimed-tasks_of, tasks_of-Ok,
  MemberOk-settle_ne, MemberOk-branches, settle-Inv,
}

module _ {ℓ} {A : Type ℓ} (den : ℕ → Expected A) (held : List (CodeTask A)) where
  -- What setting futures comes to: `w'` is the world afterwards, and no continuation has changed.
  pub record Delivered (w : World A) (unset : ℕ → Bool) (w' : World A) (unset' : ℕ → Bool)
      : Type ℓ where
    pub inv : Inv den w' held unset'
    pub shrinks : (j : ℕ) → unset' j ≡ true → unset j ≡ true
    pub same_length : length w'.members ≡ length w.members
    pub same_next :
        (i : ℕ) (m : Member A)
        → get_elem? w.members i ≡ some m
        → (m' : Member A) × (get_elem? w'.members i ≡ some m') × (m'.next ≡ m.next)

  pub Delivered-trans :
      (w₁ w₂ w₃ : World A) (u₁ u₂ u₃ : ℕ → Bool)
      → Delivered w₁ u₁ w₂ u₂
      → Delivered w₂ u₂ w₃ u₃
      → Delivered w₁ u₁ w₃ u₃
  Delivered-trans w₁ w₂ w₃ u₁ u₂ u₃ d e = record {
    inv = e.inv;
    shrinks = λ j h. d.shrinks j (e.shrinks j h);
    same_length = e.same_length ∙ d.same_length;
    same_next = λ i m h.
        let (m₂, at, n) = d.same_next i m h in
        let (m₃, at', n') = e.same_next i m₂ at in (m₃, at', n' ∙ n);
  }

  -- A future without a continuation keeps what it is set to.
  pub keep :
      (w : World A) (unset : ℕ → Bool) (t : ℕ) (m m' : Member A)
      → Inv den w held unset
      → get_elem? w.members t ≡ some m
      → m.next ≡ none
      → m'.next ≡ none
      → m'.status ≡ ready
      → m'.result ≡ some (den t)
      → Delivered w unset (put w t m') (settle unset t)
  keep w unset t m m' inv at n n' s r = record {
    inv = record {
      members_ok = λ i k h.
          subst (λ l. MemberOk den l (settle unset t) i k) (sym (length-set w.members t m'))
            (member i k h (ℕ_discrete t i));
      tasks_ok =
          subst (λ l. All (TaskOk den l) w.tasks) (sym (length-set w.members t m')) inv.tasks_ok;
      produced = λ j l h. again j (settle-true unset t j h) (
          inv.produced j (subst (λ k. j < k) (length-set w.members t m') l)
            (settle-true unset t j h).1);
    };
    shrinks = λ j h. (settle-true unset t j h).1;
    same_length = length-set w.members t m';
    same_next = λ i k h. next_there i k h (ℕ_discrete t i);
  }
    where
      put_self : get_elem? (set w.members t m') t ≡ some m'
      put_self = get_elem?-set_self w.members t m' (get_elem?-lt w.members t m at)

      member :
          (i : ℕ) (k : Member A)
          → get_elem? (set w.members t m') i ≡ some k
          → Dec (t ≡ i)
          → MemberOk den (length w.members) (settle unset t) i k
      member i k h (yes e) =
          let here : k ≡ m' =
            cc (h, subst (λ j. get_elem? (set w.members t m') j ≡ some m') e put_self) in
          subst (MemberOk den (length w.members) (settle unset t) i) (sym here) (
            is_ready n' s (subst (λ j. m'.result ≡ some (den j)) e r)
              (subst (λ j. settle unset t j ≡ false) e (settle_self unset t)))
      member i k h (no ne) =
          MemberOk-settle_ne den (length w.members) unset t i k ne
            (inv.members_ok i k (sym (get_elem?-set_ne w.members t i m' ne) ∙ h))

      again :
          (j : ℕ)
          → (t ≢ j) × (unset j ≡ true)
          → Producer w held unset j
          → Producer (put w t m') held (settle unset t) j
      again j q (by_task a) = by_task a
      again j q (by_future i k c l h nx b u) = elim (ℕ_discrete t i) [
        | yes e ↦
            let here : m ≡ k = cc (at, subst (λ x. get_elem? w.members x ≡ some k) (sym e) h) in
            absurd (cc (n, nx, ap (λ (x : Member A). x.next) here))
        | no ne ↦
            by_future i k c l (get_elem?-set_ne w.members t i m' ne ∙ h) nx b
              (settle_ne unset t i ne ∙ u)
      ]

      next_there :
          (i : ℕ) (k : Member A)
          → get_elem? w.members i ≡ some k
          → Dec (t ≡ i)
          → (k' : Member A) × (get_elem? (set w.members t m') i ≡ some k') × (k'.next ≡ k.next)
      next_there i k h (yes e) =
          let here : m ≡ k = cc (at, subst (λ x. get_elem? w.members x ≡ some k) (sym e) h) in
          (
            m',
            subst (λ j. get_elem? (set w.members t m') j ≡ some m') e put_self,
            n' ∙ sym n ∙ ap (λ (x : Member A). x.next) here,
          )
      next_there i k h (no ne) = (k, get_elem?-set_ne w.members t i m' ne ∙ h, refl)

  -- A future with a continuation and a value leaves it to tasks.
  pub pass_value :
      (w : World A) (unset : ℕ → Bool) (t : ℕ) (m : Member A) (c : Continuation A) (v : A)
      → Inv den w held unset
      → get_elem? w.members t ≡ some m
      → m.next ≡ some c
      → den t ≡ value v
      → Delivered w unset
          (record { members = w.members; tasks = w.tasks ++ tasks_of c v })
          (settle unset t)
  pass_value w unset t m c v inv at n d =
      let bs = MemberOk-branches den (length w.members) unset t m c n (inv.members_ok t m at) in
      record {
        inv =
            settle-Inv den w' held unset t m c
              (record {
                members_ok = inv.members_ok;
                tasks_ok =
                    All-append (TaskOk den (length w.members)) w.tasks (tasks_of c v) inv.tasks_ok
                      (tasks_of-Ok den (length w.members) t c v d bs);
                produced = λ j l h. more j (inv.produced j l h);
              })
              at n
              (λ j l h.
                Aimed-right j held (w.tasks ++ tasks_of c v)
                  (Aimed-right j w.tasks (tasks_of c v) (Aimed-tasks_of j c v l)));
        shrinks = λ j h. (settle-true unset t j h).1;
        same_length = refl;
        same_next = λ i k h. (k, h, refl);
      }
    where
      w' : World A
      w' = record { members = w.members; tasks = w.tasks ++ tasks_of c v }

      more : (j : ℕ) → Producer w held unset j → Producer w' held unset j
      more j (by_task a) = by_task (Aimed-more j held w.tasks (tasks_of c v) a)
      more j (by_future i k c' l h nx b u) = by_future i k c' l h nx b u
