-- ===== src/Queue/Fifo.antt =====
-- SimpleQueue on a heap: pushing at the head, popping at the tail and removing anywhere keep a well
-- linked queue of distinct nodes.
use launch_core.Prelude.{
  suc, ◌<◌, ◌≡◌, ◌≢◌, refl, false, Option, none, some, [], ◌∷◌, arith, ◌==◌, length, size_mod,
}
use launch_core.Queue.Heap.{Ptr, null, Node, node, Heap, write}
use launch_core.Queue.Chain.{
  Cells, has, Distinct, first, last, Seg, Seg-frame, set_prev-ok, set_next-ok,
}
use launch_core.Queue.Simple.{Queue, push_node}

module _ {T : Type 0} where
  -- The queue `q` links exactly the nodes of `cs`, the head first.
  pub record IsQueue (h : Heap T) (q : Queue) (cs : Cells T) : Type 0 where
    pub head_at : q.head ≡ first null cs
    pub tail_at : q.tail ≡ last null cs
    pub count : q.size ≡ length cs
    pub small : length cs < size_mod
    pub chain : Seg h null cs null
    pub distinct : Distinct cs

  -- A run that succeeds, with what holds then.
  abbrev pub Yields : {A : Type 0} → Option (A × Heap T) → (A → Heap T → Type 0) → Type 0
  Yields none P = ⊥
  Yields (some (a, h)) P = P a h

  -- Only the nodes of `cs` may have changed.
  abbrev pub SameOutside : Cells T → Heap T → Heap T → Type 0
  SameOutside cs h g = (a : Ptr) → has a cs ≡ false → g a ≡ h a

  -- `push_node` puts a node that is not on the queue at its head.
  pub push_node-IsQueue :
      (h : Heap T) (q : Queue) (cs : Cells T) (p : Ptr) (n : Node T)
      → IsQueue h q cs
      → p ≢ null
      → h p ≡ some n
      → has p cs ≡ false
      → suc (length cs) < size_mod
      → Yields
          (push_node q p h)
          (λ q' g. IsQueue g q' ((p, n.item) ∷ cs) × SameOutside ((p, n.item) ∷ cs) h g)
  unfolding push_node write
  push_node-IsQueue h q [] p n i ne e fresh small =
      let n1 : Node T = record n { prev = null } in
      let h1 = write h p n1 in
      rw (i.head_at, set_prev-ok h p n ne e null, set_next-ok h1 p n1 ne (ground arith) null)
        (
          record {
            head_at = refl;
            tail_at = refl;
            count = refl;
            small = small;
            chain = (ne, ground arith, tt);
            distinct = (refl, tt);
          },
          λ a o. ground arith,
        )
  push_node-IsQueue h q ((x, v) ∷ cs) p n i ne e fresh small =
      let m : Node T = node null (first null cs) v in
      let h1 = write h x (record m { prev = p }) in
      let n1 : Node T = record n { next = x } in
      let h2 = write h1 p n1 in
      let old : (null == x) ≡ false = ground (arith, i.chain.0) in
      rw
        (
          i.head_at,
          old,
          set_prev-ok h x m i.chain.0 i.chain.1 p,
          set_next-ok h1 p n ne (ground arith) x,
          set_prev-ok h2 p n1 ne (ground arith) null,
        )
        (
          record {
            head_at = refl;
            tail_at = i.tail_at;
            count = omega (arith, i.count, small);
            small = small;
            chain = (
              ne,
              ground arith,
              (
                i.chain.0,
                ground arith,
                Seg-frame x null cs (λ a o. ground (arith, i.distinct.0)) i.chain.2,
              ),
            );
            distinct = (fresh, i.distinct);
          },
          λ a o. ground arith,
        )
