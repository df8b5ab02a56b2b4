-- ===== src/Vector/Examples.antt =====
-- The vector's theorems on a vector of two elements with room for a third, and the tests of it.
use launch_core.Prelude.{ℕ, ◌≡◌, refl, [], ◌∷◌, some, success, error, arith}
use launch_core.Vector.{
  Vector, vector, lshift_loop, rshift_loop, lshift, rshift, insert, remove, push_back, pop_back,
  pop_front,
}
use launch_core.Vector.Shifts.{IsValid}
use launch_core.Vector.Contents.{InsertSpec, insert-insert_at}

abbrev two : Vector ℕ
two = record { capacity = 3; len = 2; elements = 5 ∷ 7 ∷ 0 ∷ [] }

two-IsValid : IsValid two
two-IsValid = record { array = refl; within = omega arith; bound = omega arith }

insert-middle :
    insert 0 two 1 ≡ (some 1, record { capacity = 3; len = 3; elements = 5 ∷ 7 ∷ 7 ∷ [] })
unfolding insert rshift rshift_loop
insert-middle = refl

pop_front-two :
    pop_front 0 two ≡ (success, record { capacity = 3; len = 1; elements = 7 ∷ 7 ∷ 0 ∷ [] })
unfolding pop_front remove lshift lshift_loop
pop_front-two = refl

pop_back-empty : pop_back {A = ℕ} 0 (vector (1 ∷ []) 1) ≡ (error, vector (1 ∷ []) 1)
unfolding pop_back remove lshift lshift_loop
pop_back-empty = refl

push_back-two :
    push_back 0 two ≡ (some 2, record { capacity = 3; len = 3; elements = 5 ∷ 7 ∷ 0 ∷ [] })
unfolding push_back insert rshift rshift_loop
push_back-two = refl

insert-insert_at_example : InsertSpec 0 two 1 6 (insert 0 two 1)
insert-insert_at_example = insert-insert_at 0 two two-IsValid 1 6
