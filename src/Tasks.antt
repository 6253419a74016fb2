-- ===== src/Tasks.antt =====
-- `partition_range` and `partition_range_pos` of include/daw/fs/impl/algorithms_impl.h: one task for
-- each part of a range. A task is one step on the memory that the tasks share, and the workers run the
-- tasks in some order: `order` lists the indices of the parts as their tasks come to run. The latch
-- that is returned opens when every task has run, so a waiter sees the state after the whole order.
use function_queue.Prelude.{
  ◌+◌, ◌-◌, ◌<◌, ◌≢◌, ℕ, suc, ◌≡◌, refl, sym, ap, ◌∙◌, List, [], ◌∷◌, ◌++◌, map, Option, none, some,
  Permᴰ, arith, length, if◌then◌else◌, ◌==◌, length-perm, length-range_from, get_elem?, modify,
  foldl, range_from, range, foldl-perm, modify_comm, modify_same, append_assoc, set, set-modify,
  length-replicate, get_elem?-append_length, modify-append_length, replicate, length-append,
}
use native.Mathlib.Decide.{ℕ_discrete}
use function_queue.Ranges.{View}

-- Each part has its task run once.
abbrev pub IsSchedule {ℓ} : {V : Type ℓ} → List V → List ℕ → Type 0
IsSchedule ranges order = Permᴰ order (range (length ranges))

module _ {ℓ κ} {V : Type ℓ} {S : Type κ} where
  -- The task that was made for part `n`.
  unfoldable pub run_task : (V → ℕ → S → S) → List V → S → ℕ → S
  run_task func ranges s n = elim (get_elem? ranges n) [ none ↦ s | some v ↦ func v n s ]

  -- `partition_range_pos` from the first part on (`start_pos` is 0), when every task is accepted.
  unfoldable pub partition_range_pos : (V → ℕ → S → S) → List V → List ℕ → S → S
  unfolding run_task
  partition_range_pos func ranges order s = foldl (run_task func ranges) s order

  -- `partition_range` gives the function its part and no index.
  unfoldable pub partition_range : (V → S → S) → List V → List ℕ → S → S
  unfolding partition_range_pos
  partition_range func ranges order s = partition_range_pos (λ v n. func v) ranges order s

-- A waiter goes on when the count of the latch is zero, and never if it stays above zero.
unfoldable pub wait {ℓ} : {S : Type ℓ} → ℕ → S → Option S
wait count s = if count == 0 then some s else none

module _ {ℓ} {S : Type ℓ} where
  -- `partition_range` that splits the range itself: the latch counts each part up when it is added and
  -- down when its task has run. For an empty range the default latch is returned, whose count is 1.
  unfoldable pub partition_range_by :
      (ℕ → ℕ → List View) → (View → S → S) → ℕ → ℕ → List ℕ → S → ℕ × S
  unfolding partition_range
  partition_range_by policy func size ts_size order s =
      if size == 0
      then (1, s)
      else let ranges = policy size ts_size in
        (0 + length ranges - length order, partition_range func ranges order s)

module _ {ℓ κ} {V : Type ℓ} {B : Type κ} where
  -- What the tasks of the parts leave in `results`, each in its own slot.
  abbrev pub update_all : (V → B → B) → List V → List B → List B
  update_all h [] bs = bs
  update_all h (v ∷ vs) [] = []
  update_all h (v ∷ vs) (b ∷ bs) = h v b ∷ update_all h vs bs

  pub update_all-replicate :
      (h : V → B → B) (vs : List V) (b : B)
      → update_all h vs (replicate (length vs) b) ≡ map (λ v. h v b) vs
  update_all-replicate h [] b = refl
  update_all-replicate h (v ∷ vs) b = ap (◌∷◌ (h v b)) (update_all-replicate h vs b)

module _ {ℓ κ} {V : Type ℓ} {B : Type κ} (h : V → B → B) where
  -- The task of part `n` works on slot `n`.
  abbrev pub slot : V → ℕ → List B → List B
  slot v n bs = modify bs n (h v)

  slot_at : List V → ℕ → B → B
  slot_at ranges n b = elim (get_elem? ranges n) [ none ↦ b | some v ↦ h v b ]

  run_task-slot_at :
      (ranges : List V) (bs : List B) (n : ℕ)
      → run_task slot ranges bs n ≡ modify bs n (slot_at ranges n)
  unfolding run_task slot_at
  run_task-slot_at ranges bs n = go (get_elem? ranges n)
    where
      go :
          (o : Option V)
          → (elim o [ none ↦ bs | some v ↦ slot v n bs ])
            ≡ modify bs n (λ b. elim o [ none ↦ b | some v ↦ h v b ])
      go none = sym (modify_same bs n)
      go (some v) = refl

  run_task_comm :
      (ranges : List V) (bs : List B) (i j : ℕ)
      → run_task slot ranges (run_task slot ranges bs i) j
        ≡ run_task slot ranges (run_task slot ranges bs j) i
  run_task_comm ranges bs i j =
      rw
        (
          run_task-slot_at ranges bs i,
          run_task-slot_at ranges bs j,
          run_task-slot_at ranges (modify bs i (slot_at ranges i)) j,
          run_task-slot_at ranges (modify bs j (slot_at ranges j)) i,
        )
        (modify_comm bs (slot_at ranges) i j)

  run_task_here :
      (pre : List V) (v : V) (vs : List V) (done : List B) (b : B) (bs : List B)
      → length done ≡ length pre
      → run_task slot (pre ++ v ∷ vs) (done ++ b ∷ bs) (length pre) ≡ done ++ h v b ∷ bs
  unfolding run_task
  run_task_here pre v vs done b bs e =
      rw (get_elem?-append_length pre v vs, run_task)
        (ap (λ k. modify (done ++ b ∷ bs) k (h v)) (sym e) ∙ modify-append_length done b bs (h v))

  in_turn :
      (pre vs : List V) (done bs : List B)
      → length done ≡ length pre
      → length bs ≡ length vs
      → foldl (run_task slot (pre ++ vs)) (done ++ bs) (range_from (length pre) (length vs))
        ≡ done ++ update_all h vs bs
  in_turn pre [] done bs e f = refl
  in_turn pre (v ∷ vs) done [] e f = absurd (omega arith)
  in_turn pre (v ∷ vs) done (b ∷ bs) e f =
      ap (λ s. foldl (run_task slot (pre ++ v ∷ vs)) s (range_from (suc (length pre)) (length vs)))
        (run_task_here pre v vs done b bs e)
      ∙ ap
          (λ k.
            foldl (run_task slot (pre ++ v ∷ vs)) (done ++ h v b ∷ bs) (range_from k (length vs)))
          next
      ∙ rw
          (
            ← append_assoc pre (v ∷ []) vs,
            ← append_assoc done (h v b ∷ []) bs,
            ← append_assoc done (h v b ∷ []) (update_all h vs bs),
          )
          (in_turn (pre ++ v ∷ []) vs (done ++ h v b ∷ []) bs
            (omega (arith, length-append done (h v b ∷ []), length-append pre (v ∷ [])))
            (omega arith))
    where
      next : suc (length pre) ≡ length (pre ++ v ∷ [])
      next = omega (arith, length-append pre (v ∷ []))

  -- Whatever the order in which the tasks run, slot `n` holds what task `n` makes of it.
  pub partition_range_pos-slots :
      (ranges : List V) (order : List ℕ) (bs : List B)
      → IsSchedule ranges order
      → length bs ≡ length ranges
      → partition_range_pos slot ranges order bs ≡ update_all h ranges bs
  unfolding partition_range_pos
  partition_range_pos-slots ranges order bs p e =
      foldl-perm (run_task slot ranges) (run_task_comm ranges) p bs ∙ in_turn [] ranges [] bs refl e

-- Every schedule stores the result of each part in its slot.
pub results-of_schedule {ℓ κ} :
    {V : Type ℓ} {B : Type κ} (g : V → B) (b : B) (ranges : List V) (order : List ℕ)
    → IsSchedule ranges order
    → partition_range_pos (λ v n r. set r n (g v)) ranges order (replicate (length ranges) b)
      ≡ map g ranges
results-of_schedule g b ranges order p =
    ap (λ w. partition_range_pos w ranges order (replicate (length ranges) b))
      (λ i v n r. set-modify r n (g v) i)
    ∙ partition_range_pos-slots (λ v _. g v) ranges order (replicate (length ranges) b) p
        (length-replicate (length ranges) b)
    ∙ update_all-replicate (λ v _. g v) ranges b

module _ {ℓ κ} {V : Type ℓ} {S : Type κ} (func : V → ℕ → S → S) where
  -- The tasks one after the other, as the loop that schedules them goes through the parts.
  abbrev pub run_from : ℕ → List V → S → S
  run_from n [] s = s
  run_from n (v ∷ vs) s = run_from (suc n) vs (func v n s)

  pub run_task_comm-of :
      ((v w : V) (m n : ℕ) → m ≢ n → (s : S) → func w n (func v m s) ≡ func v m (func w n s))
      → (ranges : List V) (s : S) (i j : ℕ)
      → run_task func ranges (run_task func ranges s i) j
        ≡ run_task func ranges (run_task func ranges s j) i
  unfolding run_task
  run_task_comm-of comm ranges s i j = elim (ℕ_discrete i j) [
    | yes e ↦
        ap (λ k. run_task func ranges (run_task func ranges s i) k) (sym e)
        ∙ ap (λ k. run_task func ranges (run_task func ranges s k) i) e
    | no ne ↦ go ne (get_elem? ranges i) (get_elem? ranges j)
  ]
    where
      go :
          i ≢ j
          → (o p : Option V)
          → (elim p [
            | none ↦ elim o [ none ↦ s | some v ↦ func v i s ]
            | some w ↦ func w j (elim o [ none ↦ s | some v ↦ func v i s ])
          ])
            ≡ (elim o [
              | none ↦ elim p [ none ↦ s | some w ↦ func w j s ]
              | some v ↦ func v i (elim p [ none ↦ s | some w ↦ func w j s ])
            ])
      go ne none none = refl
      go ne none (some w) = refl
      go ne (some v) none = refl
      go ne (some v) (some w) = comm v w i j ne s

  run_task_first :
      (pre : List V) (v : V) (vs : List V) (s : S)
      → run_task func (pre ++ v ∷ vs) s (length pre) ≡ func v (length pre) s
  unfolding run_task
  run_task_first pre v vs s = rw (get_elem?-append_length pre v vs, run_task)

  pub tasks_in_turn :
      (pre vs : List V) (s : S)
      → foldl (run_task func (pre ++ vs)) s (range_from (length pre) (length vs))
        ≡ run_from (length pre) vs s
  tasks_in_turn pre [] s = refl
  tasks_in_turn pre (v ∷ vs) s =
      ap (λ t. foldl (run_task func (pre ++ v ∷ vs)) t (range_from (suc (length pre)) (length vs)))
        (run_task_first pre v vs s)
      ∙ ap
          (λ k.
            foldl (run_task func (pre ++ v ∷ vs)) (func v (length pre) s)
              (range_from k (length vs)))
          next
      ∙ rw (← append_assoc pre (v ∷ []) vs)
          (tasks_in_turn (pre ++ v ∷ []) vs (func v (length pre) s))
      ∙ ap (λ k. run_from k vs (func v (length pre) s)) (sym next)
    where
      next : suc (length pre) ≡ length (pre ++ v ∷ [])
      next = omega (arith, length-append pre (v ∷ []))

  -- Tasks of different parts that commute give one state in every order.
  pub partition_range_pos-in_turn_apart :
      ((v w : V) (m n : ℕ) → m ≢ n → (s : S) → func w n (func v m s) ≡ func v m (func w n s))
      → (ranges : List V) (order : List ℕ) → IsSchedule ranges order
      → (s : S) → partition_range_pos func ranges order s ≡ run_from 0 ranges s
  unfolding partition_range_pos
  partition_range_pos-in_turn_apart comm ranges order p s =
      foldl-perm (run_task func ranges) (run_task_comm-of comm ranges) p s
      ∙ tasks_in_turn [] ranges s

  pub partition_range_pos-in_turn :
      ((v w : V) (m n : ℕ) (s : S) → func w n (func v m s) ≡ func v m (func w n s))
      → (ranges : List V) (order : List ℕ) → IsSchedule ranges order
      → (s : S) → partition_range_pos func ranges order s ≡ run_from 0 ranges s
  partition_range_pos-in_turn comm ranges order p s =
      partition_range_pos-in_turn_apart (λ v w m n ne. comm v w m n) ranges order p s

module _ {ℓ κ} {V : Type ℓ} {S : Type κ} (func : V → S → S) where
  pub partition_range-in_turn :
      ((v w : V) (s : S) → func w (func v s) ≡ func v (func w s))
      → (ranges : List V) (order : List ℕ) → IsSchedule ranges order
      → (s : S) → partition_range func ranges order s ≡ run_from (λ v n. func v) 0 ranges s
  unfolding partition_range
  partition_range-in_turn comm ranges order p s =
      partition_range_pos-in_turn (λ v n. func v) (λ v w m n. comm v w) ranges order p s

module _ {ℓ} {S : Type ℓ} where
  -- When each task has run once, the latch of a range that is not empty is open.
  pub partition_range_by-open :
      (policy : ℕ → ℕ → List View) (func : View → S → S) (size ts_size : ℕ) (order : List ℕ) (s : S)
      → IsSchedule (policy size ts_size) order
      → 0 < size
      → partition_range_by policy func size ts_size order s
        ≡ (0, partition_range func (policy size ts_size) order s)
  unfolding partition_range_by
  partition_range_by-open policy func size ts_size order s p n =
      let ranges = policy size ts_size in
      ground (arith, length-perm p ∙ length-range_from 0 (length ranges))
