-- ===== src/Pool/Examples.antt =====
-- A pool of three objects, and the theorems at it.
use launch_core.Prelude.{
  ◌≤◌, ◌<◌, ◌≡◌, ◌≢◌, refl, true, false, ◌||◌, Option, none, some, List, [], ◌==◌, arith, length,
  replicate,
}
use launch_core.Queue.Heap.{Ptr, null, Node, node, Heap}
use launch_core.Queue.Fifo.{Yields}
use launch_core.Queue.Simple.{queue}
use launch_core.Pool.{Descriptor, descriptor, Pool, pool, alloc, free}
use launch_core.Pool.Free.{alloc-IsPool, free-IsPool}
use launch_core.Pool.State.{IsPool}
use launch_core.Pool.Fresh.{pool-IsPool}

abbrev memory : Heap Ptr
memory a = some (node 0 0 0)

abbrev descs : List Descriptor
descs = replicate 3 (descriptor 0 true)

filled : (a : Ptr) → 0 < a → a ≤ 3 → (o : Node Ptr) × (memory a ≡ some o)
filled a lt le = (node 0 0 0, refl)

fresh_pool :
    Yields (pool 9 descs 3 memory) (λ p g. IsPool g p (λ a. false) 0 × (length p.descs ≡ 3))
fresh_pool = pool-IsPool 9 descs memory (omega arith) filled

abbrev zero_pool : Pool
zero_pool = record { self = 0; descs = []; free_desc = queue 0 0 0; free_nodes = queue 0 0 0 }

abbrev result : {A : Type 0} → A → Option (A × Heap Ptr) → A
result a none = a
result a (some (b, _)) = b

abbrev heap_of : {A : Type 0} → Option (A × Heap Ptr) → Heap Ptr
heap_of none = memory
heap_of (some (_, h)) = h

Yields-get :
    {A : Type 0} (a : A) (o : Option (A × Heap Ptr)) (P : A → Heap Ptr → Type 0)
    → Yields o P
    → P (result a o) (heap_of o)
Yields-get a none P e = absurd e
Yields-get a (some (b, h)) P e = e

unfoldable p0 : Pool
p0 = result zero_pool (pool 9 descs 3 memory)

unfoldable h0 : Heap Ptr
h0 = heap_of (pool 9 descs 3 memory)

p0-IsPool : IsPool h0 p0 (λ a. false) 0 × (length p0.descs ≡ 3)
unfolding p0 h0
p0-IsPool =
    Yields-get zero_pool (pool 9 descs 3 memory)
      (λ p g. IsPool g p (λ a. false) 0 × (length p.descs ≡ 3)) fresh_pool

abbrev Allocated : Ptr × Pool → Heap Ptr → Type 0
Allocated (d, p) g =
    (d ≢ null)
    × (d ≤ length p0.descs)
    × (false ≡ false)
    × IsPool g p (λ a. (a == d) || false) 1
    × (length p.descs ≡ length p0.descs)

one_given : Yields (alloc p0 h0) Allocated
one_given = alloc-IsPool p0-IsPool.0 (omega (arith, p0-IsPool.1))

-- The pool with one object given out, and that object.
unfoldable d1 : Ptr
d1 = (result (0, zero_pool) (alloc p0 h0)).0

unfoldable p1 : Pool
p1 = (result (0, zero_pool) (alloc p0 h0)).1

unfoldable h1 : Heap Ptr
h1 = heap_of (alloc p0 h0)

p1-IsPool : IsPool h1 p1 (λ a. (a == d1) || false) 1
unfolding d1 p1 h1
p1-IsPool = (Yields-get (0, zero_pool) (alloc p0 h0) Allocated one_given).3

free-IsPool_example :
    Yields
      (free p1 d1 h1)
      (λ (ok, p') g. (ok ≡ true) × IsPool g p' (λ a. false) 0 × (length p'.descs ≡ length p1.descs))
free-IsPool_example =
    free-IsPool p1-IsPool d1 0 (λ a. false) (ground arith) refl (λ a. ground arith)
