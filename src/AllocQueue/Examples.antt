-- ===== src/AllocQueue/Examples.antt =====
-- Queues of three objects, and the theorems at them.
use launch_core.Prelude.{
  ℕ, ◌≤◌, ◌<◌, ◌≡◌, ◌≢◌, refl, inl, Bool, true, false, Option, none, some, List, [], ◌∷◌, arith,
  ltb, replicate,
}
use launch_core.Queue.Heap.{Ptr, null, Node, node, Heap}
use launch_core.Queue.Chain.{has}
use launch_core.Queue.Sorted.{find}
use launch_core.Pool.{Descriptor, descriptor}
use launch_core.AllocQueue.{AllocQueue, alloc_queue, push, push_in_order}
use launch_core.AllocQueue.Contents.{Holds, Gives, capacity, alloc_queue-Holds, push-Holds}
use launch_core.AllocQueue.Order.{insert, push_in_order-Holds}

abbrev memory : Heap ℕ
memory a = some (node 0 0 0)

abbrev descs : List Descriptor
descs = replicate 3 (descriptor 0 true)

filled : (a : Ptr) → 0 < a → a ≤ 3 → (o : Node ℕ) × (memory a ≡ some o)
filled a lt le = (node 0 0 0, refl)

-- An empty queue, with the proof that it is one.
empty :
    (q : AllocQueue ℕ) × (alloc_queue 9 descs 3 memory memory ≡ some q)
    × Holds q []
    × (capacity q ≡ 3)
empty = alloc_queue-Holds 9 descs 3 memory memory refl (omega arith) filled filled

abbrev q0 : AllocQueue ℕ
q0 = empty.0

pushed_first : Gives (push 30 q0) (λ p q'.
    (p ≢ null) × (has {T = ℕ} p [] ≡ false) × Holds q' ((p, 30) ∷ []) × (capacity q' ≡ capacity q0))
pushed_first = push-Holds empty.2 30 (omega (arith, empty.3))

abbrev result : Option (Ptr × AllocQueue ℕ) → Ptr × AllocQueue ℕ
result none = (0, q0)
result (some r) = r

Gives-get :
    (o : Option (Ptr × AllocQueue ℕ)) (P : Ptr → AllocQueue ℕ → Type 0)
    → Gives o P
    → P (result o).0 (result o).1
Gives-get none P e = absurd e
Gives-get (some (a, q)) P e = e

-- The queue with 30 on it, and where.
unfoldable p1 : Ptr
p1 = (result (push 30 q0)).0

unfoldable q1 : AllocQueue ℕ
q1 = (result (push 30 q0)).1

q1-Holds : Holds q1 ((p1, 30) ∷ []) × (capacity q1 ≡ capacity q0)
unfolding p1 q1
q1-Holds =
    let (_, _, h, c) =
      Gives-get (push 30 q0)
        (λ p q'.
          (p ≢ null)
          × (has {T = ℕ} p [] ≡ false)
          × Holds q' ((p, 30) ∷ [])
          × (capacity q' ≡ capacity q0))
        pushed_first in
    (h, c)

-- 10 is to be popped before 30, and belongs behind it.
abbrev sooner : ℕ → ℕ → Bool
sooner a b = ltb a b

push_in_order-Holds_example : Gives (push_in_order sooner 10 q1) (λ p q'.
    (p ≢ null)
    × (has {T = ℕ} p ((p1, 30) ∷ []) ≡ false)
    × Holds q' (insert sooner p 10 ((p1, 30) ∷ []))
    × (capacity q' ≡ capacity q1))
unfolding find
push_in_order-Holds_example =
    push_in_order-Holds sooner q1-Holds.0 10 (omega (arith, q1-Holds.1, empty.3)) (inl refl)
