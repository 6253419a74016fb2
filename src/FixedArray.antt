-- ===== src/FixedArray.antt =====
-- `fixed_array` of include/daw/daw_fixed_array.h, on an explicit heap: pointers, blocks that `new[]`
-- makes and `delete[]` frees, and the faults that C++ leaves undefined. `init` is the item that `new T[n]`
-- puts in each place, and `same` is the test `this != &rhs` of the assignments, turned round.
pub mod Heap
pub mod Ownership
pub mod Items
mod Examples
use function_queue.Prelude.{ℕ, Bool, List, none, some, length, ◌==◌, if◌then◌else◌, replicate}
use Heap.{Pointer, M, ◌>>=◌, ◌>>◌, pure, new, delete, read_n, write_n, copy_n}

pub record FixedArray : Type 0 where
  pub size : ℕ
  pub data_ptr : Pointer

-- The default constructor, and what a move leaves behind.
abbrev pub empty : FixedArray
empty = record { size = 0; data_ptr = none }

-- The move constructor: the new array, and the other one as it is left.
unfoldable pub move_construct : FixedArray → FixedArray × FixedArray
move_construct other = (record { size = other.size; data_ptr = other.data_ptr }, empty)

-- The items as a raw pointer, and the array as it is left.
unfoldable pub release : FixedArray → Pointer × FixedArray
release a = (a.data_ptr, empty)

-- The pointer is looked at after the copy.
assign_from : FixedArray → FixedArray → ℕ → FixedArray
assign_from cleared rhs tmp = elim rhs.data_ptr [
  | none ↦ cleared
  | some p ↦ record { size = rhs.size; data_ptr = some tmp }
]

module _ {ℓ} {T : Type ℓ} where
  -- `fixed_array( Size )` and `fixed_array( construct_for_overwrite, Size )`
  unfoldable pub construct : T → ℕ → M T FixedArray
  unfolding new
  construct init n = do p ← new (replicate n init); pure (record { size = n; data_ptr = some p })

  -- `fixed_array( Size, def_value )`
  unfoldable pub construct_filled : T → ℕ → T → M T FixedArray
  unfolding construct write_n
  construct_filled init n def_value = do
    a ← construct init n
    write_n a.data_ptr (replicate a.size def_value)
    pure a

  -- `fixed_array( first, last )`, from the items between the iterators
  unfoldable pub construct_from : T → List T → M T FixedArray
  unfolding construct write_n
  construct_from init items = do a ← construct init (length items); write_n a.data_ptr items; pure a

  -- The copy constructor.
  unfoldable pub copy_construct : T → FixedArray → M T FixedArray
  unfolding new
  copy_construct init other =
      if other.size == 0
      then (do
        copy_n other.data_ptr other.size none
        pure (record { size = other.size; data_ptr = none }))
      else do
        p ← new (replicate other.size init)
        copy_n other.data_ptr other.size (some p)
        pure (record { size = other.size; data_ptr = some p })

  -- `clear` frees the items and keeps the pointer to them.
  unfoldable pub clear : FixedArray → M T FixedArray
  unfolding delete
  clear a = do delete a.data_ptr; pure (record a { size = 0 })

  unfoldable pub destroy : FixedArray → M T (Unit {0})
  unfolding clear
  destroy a = do cleared ← clear a; pure tt

  unfoldable pub move_assign : Bool → FixedArray → FixedArray → M T (FixedArray × FixedArray)
  unfolding clear
  move_assign same a rhs =
      if same
      then pure (a, rhs)
      else do cleared ← clear a; pure (record { size = rhs.size; data_ptr = rhs.data_ptr }, empty)

  unfoldable pub copy_assign : T → Bool → FixedArray → FixedArray → M T FixedArray
  unfolding new clear assign_from
  copy_assign init same a rhs = if same then pure a else do
    tmp ← new (replicate a.size init)
    copy_n rhs.data_ptr rhs.size (some tmp)
    cleared ← clear a
    pure (assign_from cleared rhs tmp)
