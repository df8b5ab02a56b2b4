-- ===== src/Pool/State.antt =====
-- What is free and what is allocated in a Pool, and its two queues.
use launch_core.Prelude.{
  ℕ, ◌+◌, ◌-◌, ◌≤◌, ◌<◌, ◌≡◌, ◌≢◌, refl, Bool, true, false, ◌||◌, Option, none, some, [], ◌∷◌, ◌++◌,
  arith, ◌==◌, length, get_elem?, size_mod,
}
use launch_core.Queue.Heap.{Ptr, null, Node, node, Heap, write, set_item}
use launch_core.Queue.Chain.{Cells, has, Seg-frame, Seg-split, last, load-ok}
use launch_core.Queue.Simple.{Queue, pop_node}
use launch_core.Queue.Fifo.{IsQueue, Yields}
use launch_core.Pool.{descriptor, Pool}

module _ {T : Type 0} where
  -- A run that yields, with its result.
  pub Yields-run :
      {A : Type 0} (o : Option (A × Heap T)) (P : A → Heap T → Type 0)
      → Yields o P
      → (a : A) × (g : Heap T) × (o ≡ some (a, g)) × P a g
  Yields-run none P y = absurd y
  Yields-run (some (a, g)) P y = (a, g, refl, y)

  pub IsQueue-frame :
      {h g : Heap T} {q : Queue} {cs : Cells T}
      → ((a : Ptr) → has a cs ≡ true → g a ≡ h a)
      → IsQueue h q cs
      → IsQueue g q cs
  IsQueue-frame {cs} same i = record {
    head_at = i.head_at;
    tail_at = i.tail_at;
    count = i.count;
    small = i.small;
    chain = Seg-frame null null cs same i.chain;
    distinct = i.distinct;
  }

  -- The last node of a queue.
  pub IsQueue-last :
      {h : Heap T} {q : Queue} (cs : Cells T) (p : Ptr) (v : T)
      → IsQueue h q (cs ++ ((p, v) ∷ []))
      → (p ≢ null) × (h p ≡ some (node (last null cs) null v))
  IsQueue-last {h} cs p v i =
      let (_, r) = Seg-split h null null cs ((p, v) ∷ []) i.chain in (r.0, r.1)

  -- An empty queue pops NULL.
  pub pop_node-empty :
      (h : Heap T) (q : Queue) → IsQueue h q [] → pop_node q h ≡ some ((null, q), h)
  unfolding pop_node
  pop_node-empty h q i = rw i.tail_at

  pub set_item-ok :
      (h : Heap T) (p : Ptr) (n : Node T) (v : T)
      → p ≢ null
      → h p ≡ some n
      → set_item p v h ≡ some (tt, write h p (record n { item = v }))
  unfolding set_item
  set_item-ok h p n v ne e = rw (load-ok h p n ne e)

-- the descriptors that the nodes of a queue hold
abbrev pub holds : Ptr → Cells Ptr → Bool
holds d [] = false
holds d ((_, e) ∷ cs) = (d == e) || holds d cs

abbrev pub Once : Cells Ptr → Type 0
Once [] = Unit {0}
Once ((_, d) ∷ cs) = (holds d cs ≡ false) × Once cs

pub holds-append : (d : Ptr) (cs ds : Cells Ptr) → holds d (cs ++ ds) ≡ (holds d cs || holds d ds)
holds-append d [] ds = refl
holds-append d ((p, e) ∷ cs) ds = ground (arith, holds-append d cs ds)

pub holds_snoc :
    (d : Ptr) (cs : Cells Ptr) (x e : Ptr)
    → holds d (cs ++ ((x, e) ∷ [])) ≡ (holds d cs || (d == e))
holds_snoc d cs x e = ground (arith, holds-append d cs ((x, e) ∷ []))

pub Once-init :
    (cs : Cells Ptr) (p d : Ptr) → Once (cs ++ ((p, d) ∷ [])) → Once cs × (holds d cs ≡ false)
Once-init [] p d o = (tt, refl)
Once-init ((q, e) ∷ cs) p d o =
    let (l, r) = Once-init cs p d o.1 in
    let a = holds-append e cs ((p, d) ∷ []) in
    ((ground (arith, a, o.0), l), ground (arith, a, o.0, r))

-- The `n` objects of which `used` holds are allocated, and all others are free.
pub record IsPool (h : Heap Ptr) (p : Pool) (used : Ptr → Bool) (n : ℕ) : Type 0 where
  pub unused : Cells Ptr
  pub spare : Cells Ptr
  pub desc_queue : IsQueue h p.free_desc unused
  pub node_queue : IsQueue h p.free_nodes spare
  pub apart : (a : Ptr) → has a unused ≡ true → has a spare ≡ false
  pub spares : length spare ≡ n
  pub total : length unused + n ≡ length p.descs
  pub small : length p.descs < size_mod
  pub once : Once unused
  pub offered :
      (d : Ptr) → holds d unused ≡ true → (used d ≡ false) × (d ≢ null) × (d ≤ length p.descs)
  pub taken : (d : Ptr) → used d ≡ true → (d ≢ null) × (d ≤ length p.descs)
  pub described :
      (d : Ptr)
      → d ≢ null
      → d ≤ length p.descs
      → get_elem? p.descs (d - 1) ≡ some (descriptor p.self (used d))
