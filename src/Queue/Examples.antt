-- ===== src/Queue/Examples.antt =====
-- Queues of numbers in three or four nodes, and the theorems at them.
use launch_core.Prelude.{ℕ, refl, Bool, none, some, [], ◌∷◌, ◌==◌, if◌then◌else◌, ltb, arith}
use launch_core.Queue.Heap.{node, Heap}
use launch_core.Queue.Chain.{Cells}
use launch_core.Queue.Simple.{Queue, queue}
use launch_core.Queue.Fifo.{IsQueue}

abbrev cells : Cells ℕ
cells = (1, 30) ∷ (2, 10) ∷ (3, 7) ∷ []

-- Nodes 1, 2 and 3 are linked from head to tail; node 4 is free.
abbrev heap : Heap ℕ
heap a =
    if a == 1
    then some (node 0 2 30)
    else if a == 2
    then some (node 1 3 10)
    else if a == 3
    then some (node 2 0 7)
    else if a == 4
    then some (node 0 0 20)
    else none

abbrev three : Queue
three = queue 1 3 3

three-IsQueue : IsQueue heap three cells
three-IsQueue = record {
  head_at = refl;
  tail_at = refl;
  count = refl;
  small = omega arith;
  chain = (omega arith, refl, (omega arith, refl, (omega arith, refl, tt)));
  distinct = (refl, (refl, (refl, tt)));
}

-- The sleep queue's order: the smaller number is popped first.
abbrev sooner : ℕ → ℕ → Bool
sooner a b = ltb a b
