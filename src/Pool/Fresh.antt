-- ===== src/Pool/Fresh.antt =====
-- Pool's constructor: every object is free.
use mathlib.Core.Path.{subst}
use launch_core.Prelude.{
  ℕ, zero, suc, ◌+◌, ◌-◌, ◌≤◌, ◌<◌, ◌≡◌, ◌≢◌, ◌∙◌, refl, false, ◌&&◌, some, List, [], ◌∷◌, arith,
  leb, length, length-set, get_elem?, get_elem?-set, set, size_mod,
}
use launch_core.Queue.Heap.{Ptr, null, Node, Heap, write}
use launch_core.Queue.Chain.{Cells, has, ne_of_has, changed, unchanged}
use launch_core.Queue.Simple.{empty_queue, push_node}
use launch_core.Queue.Fifo.{IsQueue, Yields, push_node-IsQueue}
use launch_core.Pool.{Descriptor, descriptor, Pool, pool_loop, pool}
use launch_core.Pool.State.{Yields-run, set_item-ok, holds, Once, IsPool, IsQueue-frame}

-- The free list of the first `i` descriptors.
abbrev stock : ℕ → Cells Ptr
stock zero = []
stock (suc i) = (suc i, suc i) ∷ stock i

has-stock : (a : Ptr) (i : ℕ) → has a (stock i) ≡ (leb 1 a && leb a i)
has-stock a zero = ground arith
has-stock a (suc i) = ground (arith, has-stock a i)

beyond : (a : Ptr) (i : ℕ) → i < a → has a (stock i) ≡ false
beyond a i lt = ground (arith, has-stock a i)

holds-stock : (a : Ptr) (i : ℕ) → holds a (stock i) ≡ (leb 1 a && leb a i)
holds-stock a zero = ground arith
holds-stock a (suc i) = ground (arith, holds-stock a i)

Once-stock : (i : ℕ) → Once (stock i)
Once-stock zero = tt
Once-stock (suc i) = (ground (arith, holds-stock (suc i) i), Once-stock i)

length-stock : (i : ℕ) → length (stock i) ≡ i
length-stock zero = refl
length-stock (suc i) = omega (arith, length-stock i)

empty_queue-IsQueue : (h : Heap Ptr) → IsQueue h empty_queue []
unfolding empty_queue
empty_queue-IsQueue h = record {
  head_at = refl;
  tail_at = refl;
  count = refl;
  small = omega arith;
  chain = tt;
  distinct = tt;
}

-- After `i` rounds of the constructor, with `k` to go.
record IsBuilding (h : Heap Ptr) (p : Pool) (i k : ℕ) : Type 0 where
  queued : IsQueue h p.free_desc (stock i)
  no_spare : IsQueue h p.free_nodes []
  size : length p.descs ≡ i + k
  small : length p.descs < size_mod
  ready : (a : Ptr) → i < a → a ≤ length p.descs → (n : Node Ptr) × (h a ≡ some n)
  described :
      (d : Ptr) → d ≢ null → d ≤ i → get_elem? p.descs (d - 1) ≡ some (descriptor p.self false)

pool_loop-IsPool :
    (k i : ℕ) (h : Heap Ptr) (p : Pool)
    → IsBuilding h p i k
    → Yields
        (pool_loop k i p h)
        (λ p' g. IsPool g p' (λ a. false) 0 × (length p'.descs ≡ length p.descs))
unfolding pool_loop
pool_loop-IsPool zero i h p b = (
  record {
    unused = stock i;
    spare = [];
    desc_queue = b.queued;
    node_queue = b.no_spare;
    apart = λ a o. refl;
    spares = refl;
    total = omega (arith, b.size, length-stock i);
    small = b.small;
    once = Once-stock i;
    offered =
        λ d o. (refl, ground (arith, holds-stock d i), ground (arith, holds-stock d i, b.size));
    taken = λ d o. cc;
    described = λ d ne le. b.described d ne (omega (arith, le, b.size));
  },
  refl,
)
pool_loop-IsPool (suc k) i h p b =
    let (n, at) = b.ready (suc i) (omega arith) (omega (arith, b.size)) in
    let a : Ptr = suc i in
    let g = write h a (record n { item = a }) in
    let out : has a (stock i) ≡ false = ground (arith, has-stock a i) in
    let queued : IsQueue g p.free_desc (stock i) =
      IsQueue-frame
        (λ e o. unchanged h a (record n { item = a }) e (ne_of_has e a (stock i) o out).1)
        b.queued in
    let (q, l, run, (l_q, l_same)) = Yields-run (push_node p.free_desc a g) _ (
      push_node-IsQueue g p.free_desc (stock i) a (record n { item = a }) queued (omega arith)
        (changed h a (record n { item = a })) out
        (omega (arith, b.size, b.small, length-stock i))) in
    let ds = set p.descs i (descriptor p.self false) in
    let len = length-set p.descs i (descriptor p.self false) in
    let rest =
      pool_loop-IsPool k a l (record p { descs = ds; free_desc = q })
        (record {
          queued = l_q;
          no_spare = IsQueue-frame (λ e o. cc) (IsQueue-frame {g = g} (λ e o. cc) b.no_spare);
          size = omega (arith, b.size, len);
          small = omega (arith, b.small, len);
          ready = λ e lt le.
              let (m, e_at) = b.ready e (omega (arith, lt)) (omega (arith, le, len)) in
              (
                m,
                l_same e (beyond e a lt)
                    ∙ unchanged h a (record n { item = a }) e (ground (arith, lt))
                    ∙ e_at,
              );
          described = λ d ne le.
              get_elem?-set p.descs i (d - 1) (descriptor p.self false) (omega (arith, b.size))
              ∙ ground (arith, b.described d ne, le, ne);
        }) in
    rw (set_item-ok h a n a (omega arith) at, run)
      (subst
        (λ t.
          Yields (pool_loop k a (record p { descs = ds; free_desc = q }) l)
            (λ p' g. IsPool g p' (λ a. false) 0 × (length p'.descs ≡ t)))
        len rest)

-- Pool::Pool on nodes and descriptors of any contents makes a pool whose objects are all free.
pub pool-IsPool :
    (self : Ptr) (ds : List Descriptor) (h : Heap Ptr)
    → length ds < size_mod
    → ((a : Ptr) → 0 < a → a ≤ length ds → (n : Node Ptr) × (h a ≡ some n))
    → Yields
        (pool self ds (length ds) h)
        (λ p g. IsPool g p (λ a. false) 0 × (length p.descs ≡ length ds))
unfolding pool empty_queue
pool-IsPool self ds h small ready = pool_loop-IsPool (length ds) 0 h _ (record {
  queued = empty_queue-IsQueue h;
  no_spare = empty_queue-IsQueue h;
  size = omega arith;
  small = small;
  ready = ready;
  described = λ d ne le. absurd (omega arith);
})
