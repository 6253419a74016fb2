-- ===== src/Futures/Growth.antt =====
-- New futures and new continuations keep the invariant.
use native.Mathlib.Decide.{ℕ_discrete}
use function_queue.Prelude.{
  ℕ, zero, suc, ◌≤◌, ◌<◌, ◌≡◌, ◌≢◌, ◌⊎◌, inl, inr, refl, sym, ap, subst, ◌∙◌, Bool, true, List, [],
  ◌∷◌, ◌++◌, none, some, arith, length, get_elem?, set, All, length-set, get_elem?-set_self,
  get_elem?-set_ne, get_elem?-lt, if◌then◌else◌, ◌==◌, length-append,
}
use function_queue.Futures.Expected.{Expected}
use function_queue.Futures.Member.{
  continued, Branch, Continuation, branches, CodeTask, code, empty_task, Member, World, new_member,
  put,
}
use function_queue.Futures.Invariant.{
  BranchOk, MemberOk, is_deferred, is_ready, is_continued, TaskOk, Producer, by_task, by_future,
  Inv,
}

-- The member of a longer list: an old one, or the new one.
get_elem?-snoc {ℓ} :
    {A : Type ℓ} (xs : List A) (y z : A) (i : ℕ)
    → get_elem? (xs ++ y ∷ []) i ≡ some z
    → ((i < length xs) × (get_elem? xs i ≡ some z)) ⊎ ((i ≡ length xs) × (z ≡ y))
get_elem?-snoc [] y z zero h = inr (refl, cc h)
get_elem?-snoc [] y z (suc i) h = absurd (cc h)
get_elem?-snoc (x ∷ xs) y z zero h = inl (omega arith, h)
get_elem?-snoc (x ∷ xs) y z (suc i) h = elim (get_elem?-snoc xs y z i h) [
  | inl (l, e) ↦ inl (omega arith, e)
  | inr (l, e) ↦ inr (ap suc l, e)
]

pub get_elem?-append_left {ℓ} :
    {A : Type ℓ} (xs ys : List A) (i : ℕ) (x : A)
    → get_elem? xs i ≡ some x
    → get_elem? (xs ++ ys) i ≡ some x
get_elem?-append_left [] ys i x h = absurd (cc h)
get_elem?-append_left (y ∷ xs) ys zero x h = h
get_elem?-append_left (y ∷ xs) ys (suc i) x h = get_elem?-append_left xs ys i x h

abbrev pub raise : (ℕ → Bool) → ℕ → ℕ → Bool
raise unset n j = if j == n then true else unset j

pub raise_ne : (unset : ℕ → Bool) (n j : ℕ) → j ≢ n → raise unset n j ≡ unset j
raise_ne unset n j h = ground arith

pub raise_self : (unset : ℕ → Bool) (n : ℕ) → raise unset n n ≡ true
raise_self unset n = ground arith

module _ {ℓ} {A : Type ℓ} (den : ℕ → Expected A) where
  BranchOk-more :
      (n n' i : ℕ) (bs : List (Branch A))
      → n ≤ n'
      → All (BranchOk den n i) bs
      → All (BranchOk den n' i) bs
  BranchOk-more n n' i [] l h = tt
  BranchOk-more n n' i (b ∷ bs) l (h, hs) =
      let earlier : b.target < n = h.made in
      (
        record { later = h.later; made = omega (arith, earlier); follows = h.follows },
        BranchOk-more n n' i bs l hs,
      )

  TaskOk-more :
      (n n' : ℕ) (ts : List (CodeTask A)) → n ≤ n' → All (TaskOk den n) ts → All (TaskOk den n') ts
  TaskOk-more n n' [] l h = tt
  TaskOk-more n n' (code f i ∷ ts) l ((h, e), hs) = ((omega arith, e), TaskOk-more n n' ts l hs)
  TaskOk-more n n' (empty_task ∷ ts) l (h, hs) = (tt, TaskOk-more n n' ts l hs)

  MemberOk-more :
      (n n' : ℕ) (unset unset' : ℕ → Bool) (i : ℕ) (m : Member A)
      → n ≤ n'
      → unset' i ≡ unset i
      → MemberOk den n unset i m
      → MemberOk den n' unset' i m
  MemberOk-more n n' unset unset' i m l e (is_deferred a b c d u) = is_deferred a b c d (e ∙ u)
  MemberOk-more n n' unset unset' i m l e (is_ready a b c u) = is_ready a b c (e ∙ u)
  MemberOk-more n n' unset unset' i m l e (is_continued c a b bs) =
      is_continued c a b (BranchOk-more n n' i (branches c) l bs)

  abbrev pub grown : World A → World A
  grown w = record { members = w.members ++ new_member ∷ []; tasks = w.tasks }

  -- A new future, whoever will set it: that is left to a task in hand.
  pub grown-Inv :
      (w : World A) (held : List (CodeTask A)) (unset : ℕ → Bool) (f : Unit {0} → Expected A)
      → Inv den w held unset
      → Inv den (grown w) (code f (length w.members) ∷ held) (raise unset (length w.members))
  grown-Inv w held unset f inv = record {
    members_ok = λ i m h. member i m (get_elem?-snoc w.members new_member m i h);
    tasks_ok = TaskOk-more n (length (w.members ++ new_member ∷ [])) w.tasks longer inv.tasks_ok;
    produced = λ j l h. elim (ℕ_discrete j n) [
      | yes e ↦ by_task (inl (sym e))
      | no ne ↦ again j (
          inv.produced j (omega (arith, length-append w.members (new_member ∷ [])))
            (sym (raise_ne unset n j ne) ∙ h))
    ];
  }
    where
      n : ℕ
      n = length w.members

      longer : n ≤ length (w.members ++ new_member ∷ [])
      longer = omega (arith, length-append w.members (new_member ∷ []))

      member :
          (i : ℕ) (m : Member A)
          → ((i < n) × (get_elem? w.members i ≡ some m)) ⊎ ((i ≡ n) × (m ≡ new_member))
          → MemberOk den (length (w.members ++ new_member ∷ [])) (raise unset n) i m
      member i m (inl (l, h)) =
          MemberOk-more n (length (w.members ++ new_member ∷ [])) unset (raise unset n) i m longer
            (raise_ne unset n i (omega arith)) (inv.members_ok i m h)
      member i m (inr (e, same)) =
          subst (MemberOk den (length (w.members ++ new_member ∷ [])) (raise unset n) i) (sym same)
            (is_deferred refl refl refl refl
              (subst (λ k. raise unset n k ≡ true) (sym e) (raise_self unset n)))

      again :
          (j : ℕ) → Producer w held unset j → Producer (grown w) (code f n ∷ held) (raise unset n) j
      again j (by_task a) = by_task (inr a)
      again j (by_future i m c l h nx b u) =
          by_future i m c l (get_elem?-append_left w.members (new_member ∷ []) i m h) nx b
            (raise_ne unset n i (omega (arith, get_elem?-lt w.members i m h)) ∙ u)

  -- A task in hand is done with when its future has another producer, or is set.
  pub release-Inv :
      (w : World A) (held : List (CodeTask A)) (unset : ℕ → Bool) (f : Unit {0} → Expected A)
      (n : ℕ)
      → Inv den w (code f n ∷ held) unset
      → (unset n ≡ true → Producer w held unset n)
      → Inv den w held unset
  release-Inv w held unset f n inv other = record {
    members_ok = inv.members_ok;
    tasks_ok = inv.tasks_ok;
    produced = λ j l h. again j h (inv.produced j l h);
  }
    where
      again :
          (j : ℕ) → unset j ≡ true → Producer w (code f n ∷ held) unset j → Producer w held unset j
      again j h (by_task (inl e)) =
          subst (Producer w held unset) e (other (subst (λ k. unset k ≡ true) (sym e) h))
      again j h (by_task (inr a)) = by_task a
      again j h (by_future i m c l at nx b u) = by_future i m c l at nx b u

  -- A future that has no continuation gets one.
  pub chain-Inv :
      (w : World A) (held : List (CodeTask A)) (unset : ℕ → Bool) (i : ℕ) (m m' : Member A)
      (c : Continuation A)
      → Inv den w held unset
      → get_elem? w.members i ≡ some m
      → m.next ≡ none
      → m'.next ≡ some c
      → m'.status ≡ continued
      → All (BranchOk den (length w.members) i) (branches c)
      → Inv den (put w i m') held unset
  chain-Inv w held unset i m m' c inv at n n' s bs = record {
    members_ok = λ j k h.
        subst (λ l. MemberOk den l unset j k) (sym (length-set w.members i m'))
          (member j k h (ℕ_discrete i j));
    tasks_ok =
        subst (λ l. All (TaskOk den l) w.tasks) (sym (length-set w.members i m')) inv.tasks_ok;
    produced =
        λ j l h. again j (inv.produced j (subst (λ k. j < k) (length-set w.members i m') l) h);
  }
    where
      member :
          (j : ℕ) (k : Member A)
          → get_elem? (set w.members i m') j ≡ some k
          → Dec (i ≡ j)
          → MemberOk den (length w.members) unset j k
      member j k h (yes e) =
          let there = get_elem?-set_self w.members i m' (get_elem?-lt w.members i m at) in
          let here : k ≡ m' =
            cc (h, subst (λ x. get_elem? (set w.members i m') x ≡ some m') e there) in
          subst (MemberOk den (length w.members) unset j) (sym here) (
            is_continued c n' s
              (subst (λ x. All (BranchOk den (length w.members) x) (branches c)) e bs))
      member j k h (no ne) = inv.members_ok j k (sym (get_elem?-set_ne w.members i j m' ne) ∙ h)

      again : (j : ℕ) → Producer w held unset j → Producer (put w i m') held unset j
      again j (by_task a) = by_task a
      again j (by_future x k d l h nx b u) = elim (ℕ_discrete i x) [
        | yes e ↦
            let here : m ≡ k = cc (at, subst (λ y. get_elem? w.members y ≡ some k) (sym e) h) in
            absurd (cc (n, nx, ap (λ (y : Member A). y.next) here))
        | no ne ↦ by_future x k d l (get_elem?-set_ne w.members i x m' ne ∙ h) nx b u
      ]
