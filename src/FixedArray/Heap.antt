-- ===== src/FixedArray/Heap.antt =====
-- The heap that arrays live on. A block is the items that `new T[n]` made, or freed.
use function_queue.Prelude.{
  ℕ, zero, suc, ◌<◌, ◌≡◌, refl, ap, ◌≢◌, List, [], ◌∷◌, ◌++◌, Option, none, some, arith, length,
  get_elem?, set, take, drop, leb, if◌then◌else◌,
}

-- The blocks in the order in which they were made; `none` is a freed one.
abbrev pub Heap {ℓ} : Type ℓ → Type ℓ
Heap T = List (Option (List T))

-- `none` is the null pointer, and `some b` points to the first item of block `b`.
abbrev pub Pointer : Type 0
Pointer = Option ℕ

-- `none` is undefined behaviour.
abbrev pub M {ℓ κ} : Type ℓ → Type κ → Type (ℓ ⊔ κ)
M T A = Heap T → Option (A × Heap T)

infixl 5 ◌>>=◌ ◌>>◌
abbrev pub ◌>>=◌ {ℓ κ μ} : {T : Type ℓ} {A : Type κ} {B : Type μ} → M T A → (A → M T B) → M T B
◌>>=◌ m f h = elim (m h) [ none ↦ none | some (a, h') ↦ f a h' ]

abbrev pub ◌>>◌ {ℓ κ} : {T : Type ℓ} {B : Type κ} → M T (Unit {0}) → M T B → M T B
m >> k = m >>= λ _. k

abbrev pub pure {ℓ κ} : {T : Type ℓ} {A : Type κ} → A → M T A
pure a h = some (a, h)

module _ {ℓ} {T : Type ℓ} where
  -- `new T[ n ]`, with what the items are initialised to.
  unfoldable pub new : List T → M T ℕ
  new items h = some (length h, h ++ some items ∷ [])

  abbrev pub block : Heap T → ℕ → Option (List T)
  block h b = elim (get_elem? h b) [ none ↦ none | some o ↦ o ]

  -- `delete[]`: nothing happens to a null pointer, and a block is freed once.
  unfoldable pub delete : Pointer → M T (Unit {0})
  delete none h = some (tt, h)
  delete (some b) h = elim (block h b) [ none ↦ none | some items ↦ some (tt, set h b none) ]

  -- `n` items from the start of a block. No item is read through a null pointer.
  unfoldable pub read_n : Pointer → ℕ → M T (List T)
  read_n none n h = if leb n 0 then some ([], h) else none
  read_n (some b) n h = elim (block h b) [
    | none ↦ if leb n 0 then some ([], h) else none
    | some items ↦ if leb n (length items) then some (take n items, h) else none
  ]

  -- Writes over the first items of a block.
  unfoldable pub write_n : Pointer → List T → M T (Unit {0})
  write_n none items h = if leb (length items) 0 then some (tt, h) else none
  write_n (some b) items h = elim (block h b) [
    | none ↦ if leb (length items) 0 then some (tt, h) else none
    | some old ↦
        if leb (length items) (length old)
        then some (tt, set h b (some (items ++ drop (length items) old)))
        else none
  ]

  -- `std::copy_n`
  unfoldable pub copy_n : Pointer → ℕ → Pointer → M T (Unit {0})
  unfolding read_n write_n
  copy_n src n dst = do items ← read_n src n; write_n dst items

  block_bound : (h : Heap T) (b : ℕ) (items : List T) → block h b ≡ some items → b < length h
  block_bound [] b items e = cc
  block_bound (o ∷ h) zero items e = omega arith
  block_bound (o ∷ h) (suc b) items e = omega (arith, block_bound h b items e)

  pub block-new_self :
      (h : Heap T) (items : List T) → block (h ++ some items ∷ []) (length h) ≡ some items
  block-new_self [] items = refl
  block-new_self (o ∷ h) items = block-new_self h items

  -- A new block leaves the others as they are.
  pub block-new_old :
      (h : Heap T) (new_items : List T) (b : ℕ) (items : List T)
      → block h b ≡ some items
      → block (h ++ some new_items ∷ []) b ≡ some items
  block-new_old [] new_items b items e = cc
  block-new_old (o ∷ h) new_items zero items e = e
  block-new_old (o ∷ h) new_items (suc b) items e = block-new_old h new_items b items e

  pub block-set_self :
      (h : Heap T) (b : ℕ) (items : List T) (o : Option (List T))
      → block h b ≡ some items
      → block (set h b o) b ≡ o
  block-set_self [] b items o e = cc
  block-set_self (p ∷ h) zero items o e = refl
  block-set_self (p ∷ h) (suc b) items o e = block-set_self h b items o e

  pub block-set_ne :
      (h : Heap T) (b c : ℕ) (o : Option (List T)) → b ≢ c → block (set h b o) c ≡ block h c
  block-set_ne [] b c o n = refl
  block-set_ne (p ∷ h) zero zero o n = absurd (n refl)
  block-set_ne (p ∷ h) zero (suc c) o n = refl
  block-set_ne (p ∷ h) (suc b) zero o n = refl
  block-set_ne (p ∷ h) (suc b) (suc c) o n = block-set_ne h b c o (λ e. n (ap suc e))

  -- The block that `new` makes is none of the blocks before.
  pub new_apart : (h : Heap T) (b : ℕ) (items : List T) → block h b ≡ some items → b ≢ length h
  new_apart h b items e = omega (arith, block_bound h b items e)
