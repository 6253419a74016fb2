-- ===== src/Futures/Delivery.antt =====
-- Setting a future that others wait for, through chains of continuations, keeps the invariant.
use native.Mathlib.Decide.{ℕ_discrete}
use function_queue.Prelude.{
  ℕ, ◌≡◌, ◌≢◌, inl, inr, sym, ap, subst, ◌∙◌, Bool, true, false, List, [], ◌∷◌, ◌++◌, map, some,
  arith, length, get_elem?, All, All-append, append_assoc,
}
use function_queue.Futures.Expected.{Expected, value, and_then}
use function_queue.Futures.Member.{
  Branch, Continuation, then_one, then_all, branches, CodeTask, code, empty_task, Member, World,
  task_of, tasks_of,
}
use function_queue.Futures.Invariant.{
  BranchOk, MemberOk, is_deferred, is_ready, is_continued, TaskOk, Aimed, Leads, Producer, by_task,
  by_future, Inv, settle,
}

pub settle_ne : (unset : ℕ → Bool) (t j : ℕ) → t ≢ j → settle unset t j ≡ unset j
settle_ne unset t j h = ground arith

pub settle_self : (unset : ℕ → Bool) (t : ℕ) → settle unset t t ≡ false
settle_self unset t = ground arith

pub settle-true :
    (unset : ℕ → Bool) (t j : ℕ) → settle unset t j ≡ true → (t ≢ j) × (unset j ≡ true)
settle-true unset t j h = elim (ℕ_discrete t j) [
  | yes e ↦ absurd (cc (sym (settle_self unset t) ∙ subst (λ k. settle unset t k ≡ true) (sym e) h))
  | no n ↦ (n, sym (settle_ne unset t j n) ∙ h)
]

Aimed-left {ℓ} : {A : Type ℓ} (j : ℕ) (ts us : List (CodeTask A)) → Aimed j ts → Aimed j (ts ++ us)
Aimed-left j [] us h = elim h [ ]
Aimed-left j (code f i ∷ ts) us (inl e) = inl e
Aimed-left j (code f i ∷ ts) us (inr h) = inr (Aimed-left j ts us h)
Aimed-left j (empty_task ∷ ts) us h = Aimed-left j ts us h

pub Aimed-right {ℓ} :
    {A : Type ℓ} (j : ℕ) (ts us : List (CodeTask A)) → Aimed j us → Aimed j (ts ++ us)
Aimed-right j [] us h = h
Aimed-right j (code f i ∷ ts) us h = inr (Aimed-right j ts us h)
Aimed-right j (empty_task ∷ ts) us h = Aimed-right j ts us h

-- More tasks behind the others.
pub Aimed-more {ℓ} :
    {A : Type ℓ} (j : ℕ) (held ts us : List (CodeTask A))
    → Aimed j (held ++ ts)
    → Aimed j (held ++ (ts ++ us))
Aimed-more j held ts us h =
    subst (Aimed j) (append_assoc held ts us) (Aimed-left j (held ++ ts) us h)

-- The tasks that a continuation adds set the futures that it leads to.
pub Aimed-tasks_of {ℓ} :
    {A : Type ℓ} (j : ℕ) (c : Continuation A) (v : A)
    → Leads j (branches c)
    → Aimed j (tasks_of c v)
Aimed-tasks_of j (then_one b) v h = h
Aimed-tasks_of {A = A} j (then_all bs) v h =
    Aimed-left j (map (task_of v) bs) (empty_task ∷ []) (all bs h)
  where
    all : (bs : List (Branch A)) → Leads j bs → Aimed j (map (task_of v) bs)
    all [] h = elim h [ ]
    all (b ∷ bs) (inl e) = inl e
    all (b ∷ bs) (inr h) = inr (all bs h)

module _ {ℓ} {A : Type ℓ} (den : ℕ → Expected A) where
  pub tasks_of-Ok :
      (n i : ℕ) (c : Continuation A) (v : A)
      → den i ≡ value v
      → All (BranchOk den n i) (branches c)
      → All (TaskOk den n) (tasks_of c v)
  tasks_of-Ok n i (then_one b) v e (h, hs) =
      ((h.made, ap (λ d. and_then d b.func) (sym e) ∙ sym h.follows), tt)
  tasks_of-Ok n i (then_all bs) v e h =
      All-append (TaskOk den n) (map (task_of v) bs) (empty_task ∷ []) (all bs h) (tt, tt)
    where
      all :
          (bs : List (Branch A))
          → All (BranchOk den n i) bs
          → All (TaskOk den n) (map (task_of v) bs)
      all [] h = tt
      all (b ∷ bs) (h, hs) =
          ((h.made, ap (λ d. and_then d b.func) (sym e) ∙ sym h.follows), all bs hs)

  -- A member other than the one that is set.
  pub MemberOk-settle_ne :
      (n : ℕ) (unset : ℕ → Bool) (t i : ℕ) (m : Member A)
      → t ≢ i
      → MemberOk den n unset i m
      → MemberOk den n (settle unset t) i m
  MemberOk-settle_ne n unset t i m h (is_deferred a b c d u) =
      is_deferred a b c d (settle_ne unset t i h ∙ u)
  MemberOk-settle_ne n unset t i m h (is_ready a b c u) = is_ready a b c (settle_ne unset t i h ∙ u)
  MemberOk-settle_ne n unset t i m h (is_continued c a b bs) = is_continued c a b bs

  MemberOk-settle_continued :
      (n : ℕ) (unset unset' : ℕ → Bool) (i : ℕ) (m : Member A) (c : Continuation A)
      → m.next ≡ some c
      → MemberOk den n unset i m
      → MemberOk den n unset' i m
  MemberOk-settle_continued n unset unset' i m c e (is_deferred a b r d u) = absurd (cc (e, a))
  MemberOk-settle_continued n unset unset' i m c e (is_ready a b r u) = absurd (cc (e, a))
  MemberOk-settle_continued n unset unset' i m c e (is_continued c' a b bs) = is_continued c' a b bs

  pub MemberOk-branches :
      (n : ℕ) (unset : ℕ → Bool) (i : ℕ) (m : Member A) (c : Continuation A)
      → m.next ≡ some c
      → MemberOk den n unset i m
      → All (BranchOk den n i) (branches c)
  MemberOk-branches n unset i m c e (is_deferred a b r d u) = absurd (cc (e, a))
  MemberOk-branches n unset i m c e (is_ready a b r u) = absurd (cc (e, a))
  MemberOk-branches n unset i m c e (is_continued c' a b bs) =
      let same : c' ≡ c = cc (e, a) in subst (λ k. All (BranchOk den n i) (branches k)) same bs

  -- A future with a continuation counts as set when each future behind it has a task or is set.
  pub settle-Inv :
      (w : World A) (held : List (CodeTask A)) (unset : ℕ → Bool) (t : ℕ) (m : Member A)
      (c : Continuation A)
      → Inv den w held unset
      → get_elem? w.members t ≡ some m
      → m.next ≡ some c
      → ((j : ℕ) → Leads j (branches c) → unset j ≡ true → Aimed j (held ++ w.tasks))
      → Inv den w held (settle unset t)
  settle-Inv w held unset t m c inv at e passed = record {
    members_ok = λ i m' h. elim (ℕ_discrete t i) [
      | yes same ↦
          let one : some m ≡ some m' = sym at ∙ ap (get_elem? w.members) same ∙ h in
          MemberOk-settle_continued (length w.members) unset (settle unset t) i m' c
            (let here : m' ≡ m = cc one in ap (λ (k : Member A). k.next) here ∙ e)
            (inv.members_ok i m' h)
      | no n ↦ MemberOk-settle_ne (length w.members) unset t i m' n (inv.members_ok i m' h)
    ];
    tasks_ok = inv.tasks_ok;
    produced =
        λ j l s. again j (settle-true unset t j s) (inv.produced j l (settle-true unset t j s).1);
  }
    where
      again :
          (j : ℕ)
          → (t ≢ j) × (unset j ≡ true)
          → Producer w held unset j
          → Producer w held (settle unset t) j
      again j s (by_task a) = by_task a
      again j s (by_future i m' c' l h n b u) = elim (ℕ_discrete t i) [
        | yes same ↦
            let one : some m ≡ some m' = sym at ∙ ap (get_elem? w.members) same ∙ h in
            let here : m ≡ m' = cc one in
            let both : c' ≡ c = cc (e, n, ap (λ (k : Member A). k.next) here) in
            by_task (passed j (subst (λ k. Leads j (branches k)) both b) s.1)
        | no ne ↦ by_future i m' c' l h n b (settle_ne unset t i ne ∙ u)
      ]
