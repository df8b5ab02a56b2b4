-- ===== src/Pool.antt =====
-- pool/pool.h: a pool of preallocated objects.
pub mod State
pub mod Free
pub mod Fresh
mod Examples
use launch_core.Prelude.{
  ℕ, zero, suc, ◌+◌, ◌-◌, Bool, true, false, not, Option, none, some, List, ◌==◌, if◌then◌else◌,
  get_elem?, set,
}
use launch_core.Queue.Heap.{Ptr, null, Cmd, pure, ◌>>=◌, ◌>>◌, load, set_item}
use launch_core.Queue.Simple.{Queue, empty_queue, push_node, pop_node}

-- struct PoolDescriptor, less its object: the object of `m_desc[i]`, and so the descriptor, is
-- known by the address `i + 1`.
pub record Descriptor : Type 0 where
  pub owner : Ptr
  pub allocated : Bool

abbrev pub descriptor : Ptr → Bool → Descriptor
descriptor o a = record { owner = o; allocated = a }

-- class Pool at the address `self`. Its nodes are those of a heap of their own, `m_nodes[i]` at the
-- address `i + 1`, and the item of a node is a descriptor.
pub record Pool : Type 0 where
  pub self : Ptr
  pub descs : List Descriptor
  pub free_desc : Queue
  pub free_nodes : Queue

-- container_of: the descriptor of an object; an address that is no object of the array is a fault
unfoldable pub container : List Descriptor → Ptr → Option Descriptor
container ds p = if p == null then none else get_elem? ds (p - 1)

abbrev pub mark : Bool → Ptr → List Descriptor → List Descriptor
mark b p ds = elim (container ds p) [ none ↦ ds | some d ↦ set ds (p - 1) (descriptor d.owner b) ]

-- Pool::alloc: the object, or NULL
unfoldable pub alloc : Pool → Cmd Ptr (Ptr × Pool)
alloc p = do
  (n, free_desc) ← pop_node p.free_desc
  if n == null then pure (null, record p { free_desc = free_desc }) else (do
    free_nodes ← push_node p.free_nodes n
    m ← load n
    pure (
      m.item,
      record p { descs = mark true m.item p.descs; free_desc = free_desc; free_nodes = free_nodes },
    ))

-- Pool::free
unfoldable pub free : Pool → Ptr → Cmd Ptr (Bool × Pool)
free p obj = elim (container p.descs obj) [
  | none ↦ λ h. none
  | some d ↦
      if not d.allocated
      then pure (false, p)
      else if not (d.owner == p.self)
      then pure (false, p)
      else do
        (n, free_nodes) ← pop_node p.free_nodes
        if n == null then pure (false, record p { free_nodes = free_nodes }) else (do
          set_item n obj
          free_desc ← push_node p.free_desc n
          pure (
            true,
            record p {
              descs = mark false obj p.descs;
              free_desc = free_desc;
              free_nodes = free_nodes;
            },
          ))
]

-- The constructor's loop over `k` more descriptors from `i`.
unfoldable pub pool_loop : ℕ → ℕ → Pool → Cmd Ptr Pool
pool_loop zero i p = pure p
pool_loop (suc k) i p = do
  set_item (suc i) (suc i)
  free_desc ← push_node p.free_desc (suc i)
  pool_loop k (suc i)
      (record p { descs = set p.descs i (descriptor p.self false); free_desc = free_desc })

-- Pool::Pool, on an array of descriptors with any contents
unfoldable pub pool : Ptr → List Descriptor → ℕ → Cmd Ptr Pool
pool self ds size =
    pool_loop size 0
      (record { self = self; descs = ds; free_desc = empty_queue; free_nodes = empty_queue })
