-- ===== src/Bustd/Vector/Tests.antt =====
-- Runs on a full vector of two numbers of four bytes.
use bunos.Prelude.{ℕ, ◌<◌, ◌≤◌, ◌≡◌, refl, Bool, true, some, [], ◌∷◌, ok, arith, ltb, ◌&&◌}
use bunos.Bustd.Vector.{Vector, remove, assign, empty_vector, remove_if, at, put_slot, move_down}
use bunos.Bustd.Vector.Slots.{IsVector}
use bunos.Bustd.Vector.Grow.{Room, Holds}
use bunos.Bustd.Vector.Shrink.{remove_lem}
use bunos.Bustd.Vector.Copy.{assign_lem}

abbrev two : Vector ℕ
two = record { size = 2; capacity = 2; slots = some 7 ∷ some 8 ∷ [] }

abbrev plenty : ℕ → Bool
plenty n = ltb 0 n && ltb n 1000

two-IsVector : IsVector two (7 ∷ 8 ∷ [])
two-IsVector = record { free = []; size_eq = refl; slots_eq = refl; capacity_eq = refl }

remove_lem_example : Holds (remove true two 0) (8 ∷ [])
remove_lem_example = remove_lem two [] 7 (8 ∷ []) (omega arith) two-IsVector

plenty-Room : (n : ℕ) → 0 < n → n ≤ 5 → Room 4 plenty n
plenty-Room n positive h = (omega arith, omega arith, ground arith)

empty-IsVector : IsVector (empty_vector {A = ℕ}) []
empty-IsVector = record { free = []; size_eq = refl; slots_eq = refl; capacity_eq = refl }

assign_lem_example : Holds (assign 4 plenty empty_vector two) (7 ∷ 8 ∷ [])
assign_lem_example =
    assign_lem 4 plenty empty_vector two [] (7 ∷ 8 ∷ []) (omega arith) (omega arith) plenty-Room
      empty-IsVector two-IsVector

-- After a removal, `remove_if` passes over the next element.
remove_if_twice :
    remove_if 2 true (λ x. ltb 0 x) 0 two
    ≡ ok (record { size = 1; capacity = 2; slots = some 8 ∷ some 8 ∷ [] })
unfolding remove_if remove put_slot move_down at
remove_if_twice = refl
