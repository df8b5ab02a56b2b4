-- ===== src/Semaphore/Examples.antt =====
-- A semaphore with a count of 0, at which the dispatched task waits, and the theorems there.
use mathlib.Core.Path.{subst}
use launch_core.Prelude.{
  ℕ, ◌≡◌, inl, inr, refl, sym, ap, true, some, List, [], ◌∷◌, arith, get_elem?, replicate, success,
}
use launch_core.Queue.Heap.{Ptr, node, Heap}
use launch_core.Pool.{Descriptor, descriptor}
use launch_core.AllocQueue.{AllocQueue, alloc_queue}
use launch_core.AllocQueue.Contents.{Holds, capacity, alloc_queue-Holds}
use launch_core.Sched.{Sched, max_num_tasks, is_unallocated}
use launch_core.Sched.Moves.{IsSched}
use launch_core.Sched.Examples.{s4, s4-chosen}
use launch_core.Semaphore.{pos, fits, plus_one, BlockingSemaphore, acquire, release}
use launch_core.Semaphore.Waiting.{
  IsSemaphore, Returns, Returns-run, Acquired, acquire-Acquired, AllKnown, Released,
  release-Released,
}

abbrev memory : Heap ℕ
memory a = some (node 0 0 0)

abbrev descs : List Descriptor
descs = replicate max_num_tasks (descriptor 0 true)

empty :
    (q : AllocQueue ℕ) × (alloc_queue 3 descs max_num_tasks memory memory ≡ some q)
    × Holds q []
    × (capacity q ≡ max_num_tasks)
empty =
    alloc_queue-Holds 3 descs max_num_tasks memory memory refl (omega arith)
      (λ a _ _. (node 0 0 0, refl)) (λ a _ _. (node 0 0 0, refl))

abbrev b0 : BlockingSemaphore
b0 = record { queue = empty.0; lock = 1; count = pos 0 }

b0-IsSemaphore : IsSemaphore b0 []
b0-IsSemaphore = record { queued = empty.2; unlocked = refl }

abbrev running : IsSched s4
running = s4-chosen.0.3.0

dispatched_task : get_elem? s4.tasks s4.dispatched ≡ some s4-chosen.2.0
dispatched_task =
    subst (λ d. get_elem? s4.tasks d ≡ some s4-chosen.2.0) (sym s4-chosen.1) s4-chosen.2.1

acquire-Acquired_example :
    Returns (acquire b0 s4) (λ r b' t'. IsSched t' × Acquired b0 [] s4 r b' t')
acquire-Acquired_example =
    acquire-Acquired b0-IsSemaphore running s4-chosen.2.0 dispatched_task
      (ap is_unallocated s4-chosen.2.2) refl

-- The semaphore with the task that waits.
waiting :
    (b : BlockingSemaphore) × (t : Sched) × (p : Ptr) × IsSemaphore b ((p, s4.dispatched) ∷ [])
    × IsSched t
    × AllKnown ((p, s4.dispatched) ∷ []) t
    × (b.count ≡ pos 0)
waiting =
    let (_, b, t, _, (it, acquired)) = Returns-run (acquire b0 s4) _ acquire-Acquired_example in
    elim acquired [
      | inl (more, _, _, _, _) ↦ absurd (more refl)
      | inr (inl (_, _, none_left, (p, i), (u, at, _))) ↦ (b, t, p, i, it, ((u, at), tt), none_left)
      | inr (inr (_, _, full, _, _)) ↦ absurd (omega (arith, full, empty.3))
    ]

release-Released_example : Returns (release waiting.0 waiting.1) (λ r b' t'.
    (r ≡ success)
    × (b'.count ≡ plus_one waiting.0.count)
    × ((it' : IsSched t') × Released waiting.0
          ((waiting.2, s4.dispatched) ∷ [])
          waiting.1
          waiting.4
          b'
          t'
          it'))
release-Released_example =
    release-Released waiting.3 waiting.4 waiting.5 (ap (λ z. fits (plus_one z)) waiting.6)
