-- ===== src/RingBuffer/Examples.antt =====
-- A ring buffer of three bytes, and the theorems at it.
use launch_core.Prelude.{◌≡◌, refl, true, false, [], ◌∷◌, error, arith}
use launch_core.RingBuffer.{Ring, push, push_obj, pop_obj}
use launch_core.RingBuffer.Fifo.{IsValid, contents, push-contents}

-- 8, then 9, round the end of the storage
abbrev two : Ring
two = record { head = 2; tail = 1; len = 2; size = 3; buf = 9 ∷ 7 ∷ 8 ∷ []; overwrite = false }

abbrev full : Ring
full = record { head = 1; tail = 1; len = 3; size = 3; buf = 6 ∷ 4 ∷ 5 ∷ []; overwrite = true }

two-IsValid : IsValid two
two-IsValid = omega arith

full-IsValid : IsValid full
full-IsValid = omega arith

push_obj-two : (push_obj two (1 ∷ 2 ∷ [])).0 ≡ error
unfolding push_obj
push_obj-two = refl

pop_obj-two : (pop_obj two 2).1 ≡ 8 ∷ 9 ∷ []
unfolding pop_obj
pop_obj-two = refl

push-contents_example :
    let (n, q) = push two (1 ∷ 2 ∷ []) in (n ≡ 1) × (contents q ≡ 8 ∷ 9 ∷ 1 ∷ []) × IsValid q
unfolding push
push-contents_example = push-contents two-IsValid (1 ∷ 2 ∷ []) refl (omega arith)
