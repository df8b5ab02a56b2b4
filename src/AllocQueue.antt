-- ===== src/AllocQueue.antt =====
-- queue/allocated_queue.h: alloc::Queue and alloc::SortedQueue, queues whose nodes come from a pool.
pub mod Contents
pub mod Order
mod Examples
use launch_core.Prelude.{ℕ, Bool, Option, none, some, List, ◌==◌, if◌then◌else◌}
use launch_core.Queue.Heap.{Ptr, null, Node, node, Heap, load, set_item}
use launch_core.Queue.Simple.{
  Queue, empty_queue, push_node, pop_node, remove_node, push_sorted, peek_node, num_nodes,
}
use launch_core.Pool.{Descriptor, Pool, pool, alloc, free}

-- alloc::Queue<T, SIZE>: the list that it inherits and its pool, with the memory of both. `heap` has
-- the pool's objects, which are the list's nodes, and `nodes` the pool's own nodes. The address of a
-- node is also that of its `data`, as `container_of` goes back and forth between the two.
pub record AllocQueue (T : Type 0) : Type 0 where
  pub list : Queue
  pub pool : Pool
  pub heap : Heap T
  pub nodes : Heap Ptr

-- A method: its result and the queue after it; `none` is a fault.
abbrev pub Method : Type 0 → Type 0 → Type 0
Method T A = AllocQueue T → Option (A × AllocQueue T)

infixl 5 ◌>>=◌
abbrev ◌>>=◌ : {A B : Type 0} → Option A → (A → Option B) → Option B
none >>= f = none
some a >>= f = f a

-- The constructor, on memory with any contents.
unfoldable pub alloc_queue :
    {T : Type 0} → Ptr → List Descriptor → ℕ → Heap T → Heap Ptr → Option (AllocQueue T)
alloc_queue self ds size heap nodes = do
  (p, nodes') ← pool self ds size nodes
  some (record { list = empty_queue; pool = p; heap = heap; nodes = nodes' })

module _ {T : Type 0} where
  -- Queue::push: where the object is stored, or NULL
  unfoldable pub push : T → Method T Ptr
  push v q = do
    ((p, pool), nodes) ← alloc q.pool q.nodes
    if p == null then some (null, record q { pool = pool; nodes = nodes }) else (do
      (_, h) ← set_item p v q.heap
      (list, heap) ← push_node q.list p h
      some (p, record { list = list; pool = pool; heap = heap; nodes = nodes }))

  -- Queue::push with no argument: the object keeps what its memory held
  unfoldable pub push_new : Method T Ptr
  push_new q = do
    ((p, pool), nodes) ← alloc q.pool q.nodes
    if p == null then some (null, record q { pool = pool; nodes = nodes }) else (do
      (list, heap) ← push_node q.list p q.heap
      some (p, record { list = list; pool = pool; heap = heap; nodes = nodes }))

  -- Queue::pop
  unfoldable pub pop : Method T (Unit {0})
  pop q = do
    ((p, list), heap) ← pop_node q.list q.heap
    if p == null then some (tt, record q { list = list; heap = heap }) else (do
      ((_, pool), nodes) ← free q.pool p q.nodes
      some (tt, record { list = list; pool = pool; heap = heap; nodes = nodes }))

  -- Queue::peek: the address of the object, or NULL
  unfoldable pub peek : AllocQueue T → Ptr
  peek q = let p = peek_node q.list in if p == null then null else p

  -- Queue::remove
  unfoldable pub remove : Ptr → Method T (Unit {0})
  remove p q = do
    (list, heap) ← remove_node q.list p q.heap
    ((_, pool), nodes) ← free q.pool p q.nodes
    some (tt, record { list = list; pool = pool; heap = heap; nodes = nodes })

  -- Queue::size
  unfoldable pub size : AllocQueue T → ℕ
  size q = num_nodes q.list

  -- SortedQueue::push. The other methods of SortedQueue are those of Queue, word for word.
  unfoldable pub push_in_order : (T → T → Bool) → T → Method T Ptr
  push_in_order sort v q = do
    ((p, pool), nodes) ← alloc q.pool q.nodes
    if p == null then some (null, record q { pool = pool; nodes = nodes }) else (do
      (_, h) ← set_item p v q.heap
      (list, heap) ← push_sorted sort q.list p h
      some (p, record { list = list; pool = pool; heap = heap; nodes = nodes }))

  -- `*p` of an address that `peek` or `push` returned
  unfoldable pub read : Ptr → AllocQueue T → Option T
  read p q = do (n, _) ← load p q.heap; some n.item
