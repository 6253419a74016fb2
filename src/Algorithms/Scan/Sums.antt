-- ===== src/Algorithms/Scan/Sums.antt =====
-- The first pass of `parallel_scan`: the entry of each part comes to hold the total of what stands
-- before it, in whatever order the parts are added.
use function_queue.Prelude.{
  ℕ, zero, suc, ◌-◌, ◌≤◌, ◌≡◌, ◌≢◌, refl, sym, ap, ap₂, ◌∙◌, List, [], ◌∷◌, ◌++◌, map, Option, none,
  some, arith, length, get_elem?, modify, replicate, take, drop, foldl, foldl_assoc, append_assoc,
  length-append, foldl-append,
}
use function_queue.Ranges.{View, items, Tiles, items-cons, length-items, Tiles-le}
use function_queue.Tasks.{
  run_from, IsSchedule, partition_range_pos, partition_range_pos-in_turn_apart,
}
use function_queue.Algorithms.ForEach.{apply_from, apply_from-map}
use function_queue.Algorithms.Writes.{write_from, write_from-append}
use function_queue.Algorithms.Scan.{
  scan_from, partial_sum, add_value, add_result, add_first, first_pass,
}

module _ {ℓ} {A : Type ℓ} where
  modify-modify :
      (f g : A → A)
      → ((a : A) → g (f a) ≡ f (g a))
      → (xs : List A) (i j : ℕ) → modify (modify xs i f) j g ≡ modify (modify xs j g) i f
  modify-modify f g c [] i j = refl
  modify-modify f g c (x ∷ xs) zero zero = ap (λ y. y ∷ xs) (c x)
  modify-modify f g c (x ∷ xs) zero (suc j) = refl
  modify-modify f g c (x ∷ xs) (suc i) zero = refl
  modify-modify f g c (x ∷ xs) (suc i) (suc j) = ap (◌∷◌ x) (modify-modify f g c xs i j)

  apply_from-modify :
      (f g : A → A)
      → ((a : A) → g (f a) ≡ f (g a))
      → (first rounds : ℕ) (xs : List A) (j : ℕ)
      → modify (apply_from f first rounds xs) j g ≡ apply_from f first rounds (modify xs j g)
  unfolding apply_from
  apply_from-modify f g c first zero xs j = refl
  apply_from-modify f g c first (suc n) xs j =
      apply_from-modify f g c (suc first) n (modify xs first f) j
      ∙ ap (apply_from f (suc first) n) (modify-modify f g c xs first j)

  apply_from_comm :
      (f g : A → A)
      → ((a : A) → g (f a) ≡ f (g a))
      → (a m b n : ℕ) (xs : List A)
      → apply_from g b n (apply_from f a m xs) ≡ apply_from f a m (apply_from g b n xs)
  unfolding apply_from
  apply_from_comm f g c a m b zero xs = refl
  apply_from_comm f g c a m b (suc n) xs =
      ap (apply_from g (suc b) n) (apply_from-modify f g c a m xs b)
      ∙ apply_from_comm f g c a m (suc b) n (modify xs b g)

  length-modify : (f : A → A) (xs : List A) (i : ℕ) → length (modify xs i f) ≡ length xs
  length-modify f [] i = refl
  length-modify f (x ∷ xs) zero = refl
  length-modify f (x ∷ xs) (suc i) = ap suc (length-modify f xs i)

  length-apply_from :
      (f : A → A) (first rounds : ℕ) (xs : List A)
      → length (apply_from f first rounds xs) ≡ length xs
  unfolding apply_from
  length-apply_from f first zero xs = refl
  length-apply_from f first (suc n) xs =
      length-apply_from f (suc first) n (modify xs first f) ∙ length-modify f xs first

  map-replicate {κ} :
      {B : Type κ} (f : A → B) (n : ℕ) (a : A) → map f (replicate n a) ≡ replicate n (f a)
  map-replicate f zero a = refl
  map-replicate f (suc n) a = ap (◌∷◌ (f a)) (map-replicate f n a)

module _ {ℓ} {A : Type ℓ} (op : A → A → A) (assoc : (a b c : A) → op (op a b) c ≡ op a (op b c))
    (comm : (a b : A) → op a b ≡ op b a) where
  add_value_comm :
      (r s : A) (o : Option A)
      → add_value op r (add_value op s o) ≡ add_value op s (add_value op r o)
  add_value_comm r s none = ap some (comm s r)
  add_value_comm r s (some a) = ap some (assoc a s r ∙ ap (op a) (comm s r) ∙ sym (assoc a r s))

  -- Two parts may be added in either order.
  pub add_result_comm :
      (m n : ℕ) (r s : A) (l : List (Option A))
      → add_result op n s (add_result op m r l) ≡ add_result op m r (add_result op n s l)
  unfolding add_result
  add_result_comm m n r s l =
      ap (λ k. apply_from (add_value op s) (suc n) (k - suc n) (add_result op m r l))
        (length-apply_from (add_value op r) (suc m) (length l - suc m) l)
      ∙ apply_from_comm (add_value op r) (add_value op s) (λ o. add_value_comm s r o) (suc m)
          (length l - suc m) (suc n) (length l - suc n) l
      ∙ ap (λ k. apply_from (add_value op r) (suc m) (k - suc m) (add_result op n s l))
          (sym (length-apply_from (add_value op s) (suc n) (length l - suc n) l))

  -- A part goes into the entries behind it.
  pub add_result-append :
      (done : List (Option A)) (o acc : Option A) (k : ℕ) (r : A)
      → add_result op (length done) r (done ++ o ∷ replicate k acc)
        ≡ done ++ o ∷ replicate k (add_value op r acc)
  unfolding add_result
  add_result-append done o acc k r =
      let pre = done ++ o ∷ [] in
      let there : suc (length done) ≡ length pre = omega (arith, length-append done (o ∷ [])) in
      let rounds : length (done ++ o ∷ replicate k acc) - suc (length done)
          ≡ length (replicate k acc) =
        omega (arith, length-append done (o ∷ replicate k acc)) in
      ap₂ (λ i l. apply_from (add_value op r) (suc (length done)) i l) rounds
        (sym (append_assoc done (o ∷ []) (replicate k acc)))
      ∙ ap (λ i. apply_from (add_value op r) i (length (replicate k acc)) (pre ++ replicate k acc))
          there
      ∙ apply_from-map (add_value op r) pre (replicate k acc)
      ∙ append_assoc done (o ∷ []) (map (add_value op r) (replicate k acc))
      ∙ ap (λ l. done ++ o ∷ l) (map-replicate (add_value op r) k acc)

-- The total of some items behind a total, if there is any.
abbrev pub absorb {ℓ} : {A : Type ℓ} → (A → A → A) → Option A → List A → Option A
absorb op none [] = none
absorb op none (x ∷ xs) = some (foldl op x xs)
absorb op (some s) xs = some (foldl op s xs)

module _ {ℓ} {A : Type ℓ} (op : A → A → A) where
  -- What the entries of the parts come to.
  abbrev pub total_before : List A → ℕ → Option A
  total_before xs i = absorb op none (take i xs)

  pub length-scan_from : (x : A) (r : List A) → length (scan_from op x r) ≡ length r
  length-scan_from x [] = refl
  length-scan_from x (y ∷ r) = ap suc (length-scan_from (op x y) r)

module _ {ℓ} {A : Type ℓ} where
  take-nil : (n : ℕ) → take {A = A} n [] ≡ []
  take-nil zero = refl
  take-nil (suc n) = refl

  take-items : (i j : ℕ) (xs : List A) → i ≤ j → take i xs ++ take (j - i) (drop i xs) ≡ take j xs
  take-items zero j xs h = ap (λ n. take n xs) (omega arith)
  take-items (suc i) zero xs h = absurd (omega arith)
  take-items (suc i) (suc j) [] h = take-nil (suc j - suc i)
  take-items (suc i) (suc j) (x ∷ xs) h =
      ap (λ n. x ∷ (take i xs ++ take n (drop i xs))) (omega arith)
      ∙ ap (◌∷◌ x) (take-items i j xs (omega arith))

module _ {ℓ} {A : Type ℓ} (op : A → A → A) (assoc : (a b c : A) → op (op a b) c ≡ op a (op b c))
    (comm : (a b : A) → op a b ≡ op b a) where
  absorb-append :
      (o : Option A) (xs ys : List A) → absorb op o (xs ++ ys) ≡ absorb op (absorb op o xs) ys
  absorb-append none [] ys = refl
  absorb-append none (x ∷ xs) ys = ap some (foldl-append op x xs ys)
  absorb-append (some s) xs ys = ap some (foldl-append op s xs ys)

  add_value-absorb :
      (o : Option A) (y : A) (ys : List A) → add_value op (foldl op y ys) o ≡ absorb op o (y ∷ ys)
  add_value-absorb none y ys = refl
  add_value-absorb (some s) y ys = ap some (sym (foldl_assoc op assoc s y ys))

  total_before-next :
      (xs : List A) (v : View) (a : ℕ) (y : A) (ys : List A)
      → v.first ≡ a
      → v.first ≤ v.last
      → items xs v ≡ y ∷ ys
      → add_value op (foldl op y ys) (total_before op xs a) ≡ total_before op xs v.last
  total_before-next xs v a y ys e l its =
      add_value-absorb (total_before op xs a) y ys
      ∙ ap₂ (λ i its. absorb op (total_before op xs i) its) (sym e) (sym its)
      ∙ sym (absorb-append none (take v.first xs) (items xs v))
      ∙ ap (absorb op none) (take-items v.first v.last xs l)

  add_first-add_result :
      (x : A) (r out : List A) (l : List (Option A)) (n : ℕ) (s : A)
      → add_first op x r out (add_result op (suc n) s l)
        ≡ ((add_first op x r out l).0, add_result op (suc n) s (add_first op x r out l).1)
  unfolding add_first
  add_first-add_result x r out l n s = go (get_elem? written (length r))
    where
      written : List A
      written = write_from out 0 (x ∷ scan_from op x r)

      added : List (Option A) → Option A → List A × List (Option A)
      added l o = elim o [ none ↦ (written, l) | some value ↦ (written, add_result op 0 value l) ]

      go :
          (o : Option A)
          → added (add_result op (suc n) s l) o
            ≡ ((added l o).0, add_result op (suc n) s (added l o).1)
      go none = refl
      go (some value) = ap (λ k. (written, k)) (add_result_comm op assoc comm (suc n) 0 s value l)

  -- The tasks of different parts may run in either order.
  first_pass_comm :
      (its jts : List A) (m n : ℕ)
      → m ≢ n
      → (out : List A) (l : List (Option A))
      → first_pass op jts n (first_pass op its m (out, l))
        ≡ first_pass op its m (first_pass op jts n (out, l))
  unfolding first_pass add_first
  first_pass_comm [] jts m n ne out l = refl
  first_pass_comm (x ∷ r) [] m n ne out l = refl
  first_pass_comm (x ∷ r) (y ∷ q) zero zero ne out l = absurd (ne refl)
  first_pass_comm (x ∷ r) (y ∷ q) zero (suc n) ne out l =
      sym (add_first-add_result x r out l n (foldl op y q))
  first_pass_comm (x ∷ r) (y ∷ q) (suc m) zero ne out l =
      add_first-add_result y q out l m (foldl op x r)
  first_pass_comm (x ∷ r) (y ∷ q) (suc m) (suc n) ne out l =
      ap (λ k. (out, k))
        (add_result_comm op assoc comm (suc m) (suc n) (foldl op x r) (foldl op y q) l)

  later_parts :
      (xs : List A) (k a : ℕ) (vs : List View) (out : List A) (done : List (Option A))
      → Tiles a vs (length xs)
      → length done ≡ suc k
      → run_from
          (λ v n s. first_pass op (items xs v) n s)
          (suc k)
          vs
          (out, done ++ replicate (length vs) (total_before op xs a))
        ≡ (out, done ++ map (λ v. total_before op xs v.first) vs)
  unfolding first_pass
  later_parts xs k a [] out done t e = refl
  later_parts xs k a (v ∷ vs) out done t e =
      let (y, ys, its) = items-cons xs a v vs t in
      let acc = total_before op xs a in
      let before : v.first ≤ v.last = omega (arith, t.1) in
      ap (λ l. rest (first_pass op l (suc k) (out, done ++ acc ∷ replicate (length vs) acc))) its
      ∙ ap
          (λ i.
            rest (out, add_result op i (foldl op y ys) (done ++ acc ∷ replicate (length vs) acc)))
          (sym e)
      ∙ ap (λ l. rest (out, l))
          (add_result-append op assoc comm done acc acc (length vs) (foldl op y ys))
      ∙ ap (λ o. rest (out, done ++ acc ∷ replicate (length vs) o))
          (total_before-next xs v a y ys t.0 before its)
      ∙ ap (λ l. rest (out, l))
          (sym (append_assoc done (acc ∷ []) (replicate (length vs) (total_before op xs v.last))))
      ∙ later_parts xs (suc k) v.last vs out (done ++ acc ∷ []) t.2
          (omega (arith, length-append done (acc ∷ [])))
      ∙ ap (λ l. (out, l)) (append_assoc done (acc ∷ []) (map (λ v. total_before op xs v.first) vs))
      ∙ ap (λ i. (out, done ++ total_before op xs i ∷ map (λ v. total_before op xs v.first) vs))
          (sym t.0)
    where
      rest : List A × List (Option A) → List A × List (Option A)
      rest = run_from (λ v n s. first_pass op (items xs v) n s) (suc (suc k)) vs

  get_elem?-scan_from :
      (x : A) (r zs : List A)
      → get_elem? ((x ∷ scan_from op x r) ++ zs) (length r) ≡ some (foldl op x r)
  get_elem?-scan_from x [] zs = refl
  get_elem?-scan_from x (y ∷ r) zs = get_elem?-scan_from (op x y) r zs

  add_first-out :
      (x : A) (r out : List A) (l : List (Option A))
      → suc (length r) ≤ length out
      → add_first op x r out l
        ≡ (write_from out 0 (x ∷ scan_from op x r), add_result op 0 (foldl op x r) l)
  unfolding add_first
  add_first-out x r out l h =
      let written = write_from out 0 (x ∷ scan_from op x r) in
      let back : get_elem? written (length r) ≡ some (foldl op x r) =
        ap (λ k. get_elem? k (length r))
          (write_from-append [] (x ∷ scan_from op x r) out (omega (arith, length-scan_from op x r)))
        ∙ get_elem?-scan_from x r (drop (length (x ∷ scan_from op x r)) out) in
      ap
        (λ (o : Option A). elim o as (λ _. List A × List (Option A)) [
          | none ↦ (written, l)
          | some value ↦ (written, add_result op 0 value l)
        ])
        back

  -- The first pass writes the outputs of the first part, and each entry comes to hold the total of what
  -- stands before its part.
  pub first_pass-totals :
      (xs out : List A) (v : View) (vs : List View) (order : List ℕ)
      → Tiles 0 (v ∷ vs) (length xs)
      → length out ≡ length xs
      → IsSchedule (v ∷ vs) order
      → partition_range_pos
          (λ v n s. first_pass op (items xs v) n s)
          (v ∷ vs)
          order
          (out, replicate (length (v ∷ vs)) none)
        ≡ (
          write_from out 0 (partial_sum op (items xs v)),
          map (λ v. total_before op xs v.first) (v ∷ vs),
        )
  unfolding first_pass
  first_pass-totals xs out v vs order t e p =
      let (x, r, its) = items-cons xs 0 v vs t in
      let inside : suc (length r) ≤ length out = omega (
        arith,
        e,
        length-items xs 0 v vs t,
        ap length its,
        Tiles-le v.last (length xs) vs t.2,
        t.0,
      ) in
      let before : v.first ≤ v.last = omega (arith, t.1) in
      partition_range_pos-in_turn_apart (λ v n s. first_pass op (items xs v) n s)
        (λ v w m n ne s. first_pass_comm (items xs v) (items xs w) m n ne s.0 s.1) (v ∷ vs) order p
        (out, replicate (length (v ∷ vs)) none)
      ∙ ap (λ l. rest (first_pass op l 0 (out, none ∷ replicate (length vs) none))) its
      ∙ ap rest (add_first-out x r out (none ∷ replicate (length vs) none) inside)
      ∙ ap (λ l. rest (write_from out 0 (x ∷ scan_from op x r), l))
          (add_result-append op assoc comm [] none none (length vs) (foldl op x r))
      ∙ ap (λ o. rest (write_from out 0 (x ∷ scan_from op x r), none ∷ replicate (length vs) o))
          (total_before-next xs v 0 x r t.0 before its)
      ∙ later_parts xs 0 v.last vs (write_from out 0 (x ∷ scan_from op x r)) (none ∷ []) t.2 refl
      ∙ ap₂
          (λ l i. (
            write_from out 0 (partial_sum op l),
            total_before op xs i ∷ map (λ v. total_before op xs v.first) vs,
          ))
          (sym its) (sym t.0)
    where
      rest : List A × List (Option A) → List A × List (Option A)
      rest = run_from (λ v n s. first_pass op (items xs v) n s) 1 vs
