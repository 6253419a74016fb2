-- ===== src/Prelude/Folds.antt =====
-- Left folds, and why the order of commuting steps does not matter.
use Prim.Native.Nat.{ℕ, zero, suc, ◌+◌, ◌≤◌, ◌<◌}
use mathlib.Core.Path.{◌≡◌, refl, ap, subst, ◌∙◌}
use mathlib.Core.List.{List, [], ◌∷◌, ◌++◌, map, Permᴰ}
use native.Mathlib.Omega.{arith}
use native.Mathlib.Decide.{ℕ_discrete}
use function_queue.Prelude.Lists.{length}

abbrev pub foldl {ℓ κ} : {A : Type ℓ} {S : Type κ} → (S → A → S) → S → List A → S
foldl f s [] = s
foldl f s (x ∷ xs) = foldl f (f s x) xs

-- The numbers from `a` on, `n` of them.
abbrev pub range_from : ℕ → ℕ → List ℕ
range_from a zero = []
range_from a (suc n) = a ∷ range_from (suc a) n

abbrev pub range : ℕ → List ℕ
range n = range_from 0 n

abbrev pub flatten {ℓ} : {A : Type ℓ} → List (List A) → List A
flatten [] = []
flatten (xs ∷ xss) = xs ++ flatten xss

abbrev pub All {ℓ κ} : {A : Type ℓ} → (A → Type κ) → List A → Type κ
All P [] = Unit
All P (x ∷ xs) = P x × All P xs

module _ {ℓ κ} {A : Type ℓ} {S : Type κ} (f : S → A → S) where
  pub foldl-append : (s : S) (xs ys : List A) → foldl f s (xs ++ ys) ≡ foldl f (foldl f s xs) ys
  foldl-append s [] ys = refl
  foldl-append s (x ∷ xs) ys = foldl-append (f s x) xs ys

  -- Steps that commute give one result in every order.
  pub foldl-perm :
      ((s : S) (x y : A) → f (f s x) y ≡ f (f s y) x)
      → {xs ys : List A} → Permᴰ xs ys
      → (s : S) → foldl f s xs ≡ foldl f s ys
  foldl-perm comm Permᴰ.nil s = refl
  foldl-perm comm (Permᴰ.cons {a = a} {b = b} {l₁ = l} {l₂ = m} e p) s =
      foldl-perm comm p (f s a) ∙ ap (λ c. foldl f (f s c) m) e
  foldl-perm comm (Permᴰ.swap {a = a} {b = b} {a' = a'} {b' = b'} {l = l} e e') s =
      ap (λ c. foldl f c l) (comm s a b ∙ ap (λ c. f (f s c) a) e' ∙ ap (λ c. f (f s a') c) e)
  foldl-perm comm (Permᴰ.trans p q) s = foldl-perm comm p s ∙ foldl-perm comm q s

module _ {ℓ} {A : Type ℓ} (op : A → A → A)
    (assoc : (a b c : A) → op (op a b) c ≡ op a (op b c)) where
  -- An associative operation may start from any split.
  pub foldl_assoc : (a b : A) (xs : List A) → foldl op (op a b) xs ≡ op a (foldl op b xs)
  foldl_assoc a b [] = refl
  foldl_assoc a b (x ∷ xs) = ap (λ c. foldl op c xs) (assoc a b x) ∙ foldl_assoc a (op b x) xs

pub length-range_from : (a n : ℕ) → length (range_from a n) ≡ n
length-range_from a zero = refl
length-range_from a (suc n) = ap suc (length-range_from (suc a) n)

pub map-range_from-suc {ℓ} :
    {B : Type ℓ} (f : ℕ → B) (a n : ℕ)
    → map f (range_from (suc a) n) ≡ map (λ i. f (suc i)) (range_from a n)
map-range_from-suc f a zero = refl
map-range_from-suc f a (suc n) = ap (◌∷◌ (f (suc a))) (map-range_from-suc f (suc a) n)

pub length-perm {ℓ} : {A : Type ℓ} {xs ys : List A} → Permᴰ xs ys → length xs ≡ length ys
length-perm Permᴰ.nil = refl
length-perm (Permᴰ.cons e p) = ap suc (length-perm p)
length-perm (Permᴰ.swap e e') = refl
length-perm (Permᴰ.trans p q) = length-perm p ∙ length-perm q

pub All-append {ℓ κ} :
    {A : Type ℓ} (P : A → Type κ) (xs ys : List A) → All P xs → All P ys → All P (xs ++ ys)
All-append P [] ys p q = q
All-append P (x ∷ xs) ys (p, ps) q = (p, All-append P xs ys ps q)

pub All-split {ℓ κ} :
    {A : Type ℓ} (P : A → Type κ) (xs ys : List A) → All P (xs ++ ys) → All P xs × All P ys
All-split P [] ys p = (tt, p)
All-split P (x ∷ xs) ys (p, ps) = let (l, r) = All-split P xs ys ps in ((p, l), r)

pub All-perm {ℓ κ} :
    {A : Type ℓ} (P : A → Type κ) {xs ys : List A} → Permᴰ xs ys → All P xs → All P ys
All-perm P Permᴰ.nil h = h
All-perm P (Permᴰ.cons e p) (h, hs) = (subst P e h, All-perm P p hs)
All-perm P (Permᴰ.swap e e') (h, (h', hs)) = (subst P e' h', (subst P e h, hs))
All-perm P (Permᴰ.trans p q) h = All-perm P q (All-perm P p h)

-- What holds of a range holds of each number in it.
pub All-range_from_lookup {κ} :
    (P : ℕ → Type κ) (a k m : ℕ) → All P (range_from a k) → a ≤ m → m < a + k → P m
All-range_from_lookup P a zero m h l u = absurd (omega arith)
All-range_from_lookup P a (suc k) m (h, hs) l u = elim (ℕ_discrete a m) [
  | yes e ↦ subst P e h
  | no n ↦ All-range_from_lookup P (suc a) k m hs (omega arith) (omega arith)
]
