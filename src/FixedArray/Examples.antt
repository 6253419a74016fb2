-- ===== src/FixedArray/Examples.antt =====
-- Runs of arrays of numbers: `two` owns block 0 and `three` owns block 1.
use function_queue.Prelude.{ℕ, ◌≡◌, refl, false, [], ◌∷◌, none, some, arith, get_elem?}
use function_queue.FixedArray.Heap.{Heap, block}
use function_queue.FixedArray.{FixedArray, construct_from, copy_assign}
use function_queue.FixedArray.Items.{
  item_read, load, at, store, front, back, read_all, construct_from-read_all,
}
use function_queue.FixedArray.Ownership.{Owns, copy_assign_overflows, copy_assign-Owns}

abbrev heap : Heap ℕ
heap = some (7 ∷ 8 ∷ []) ∷ some (1 ∷ 2 ∷ 3 ∷ []) ∷ []

abbrev two : FixedArray
two = record { size = 2; data_ptr = some 0 }

abbrev three : FixedArray
three = record { size = 3; data_ptr = some 1 }

two-Owns : Owns heap two 0 (7 ∷ 8 ∷ [])
two-Owns = record { points = refl; held = refl; sized = refl }

three-Owns : Owns heap three 1 (1 ∷ 2 ∷ 3 ∷ [])
three-Owns = record { points = refl; held = refl; sized = refl }

copy_assign_overflows_example : copy_assign 0 false two three heap ≡ none
copy_assign_overflows_example =
    copy_assign_overflows 0 heap two three 0 1 (7 ∷ 8 ∷ []) (1 ∷ 2 ∷ 3 ∷ []) two-Owns three-Owns
      (omega arith)

copy_assign_run :
    (h' : Heap ℕ) × (a' : FixedArray) × (d : ℕ) × (copy_assign 0 false three two heap
      ≡ some (a', h'))
    × (a'.size ≡ 2)
    × (block h' d ≡ some (7 ∷ 8 ∷ 0 ∷ []))
    × (a'.data_ptr ≡ some d)
    × (block h' 1 ≡ none)
    × Owns h' two 0 (7 ∷ 8 ∷ [])
copy_assign_run =
    copy_assign-Owns 0 heap three two 1 0 (1 ∷ 2 ∷ 3 ∷ []) (7 ∷ 8 ∷ []) three-Owns two-Owns
      (omega arith) (omega arith)

construct_from-read_all_example :
    (a : FixedArray) × (h₁ : Heap ℕ) × (h₂ : Heap ℕ) × (construct_from 0 (4 ∷ 5 ∷ 6 ∷ []) heap
      ≡ some (a, h₁))
    × (read_all a h₁ ≡ some (4 ∷ 5 ∷ 6 ∷ [], h₁))
    × (store a.data_ptr 1 9 h₁ ≡ some (tt, h₂))
    × (read_all a h₂ ≡ some (4 ∷ 9 ∷ 6 ∷ [], h₂))
    × ((i : ℕ) → at a i h₂ ≡ item_read h₂ (get_elem? (4 ∷ 9 ∷ 6 ∷ []) i))
construct_from-read_all_example = construct_from-read_all 0 (4 ∷ 5 ∷ 6 ∷ []) heap 1 9 (omega arith)

ends_run : (front three heap ≡ some (1, heap)) × (back three heap ≡ some (3, heap))
unfolding front back load
ends_run = (refl, refl)
