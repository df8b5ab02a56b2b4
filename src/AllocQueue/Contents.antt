-- ===== src/AllocQueue/Contents.antt =====
-- alloc::Queue holds what is pushed, in the nodes of its pool, oldest at the tail.
use mathlib.Core.Path.{subst}
use launch_core.Prelude.{
  ℕ, suc, ◌≤◌, ◌<◌, ◌≡◌, ◌≢◌, ◌∙◌, refl, ap, true, false, inl, inr, Option, none, some, List, [],
  ◌∷◌, ◌++◌, append-nil, arith, ◌==◌, if◌then◌else◌, length, length-append, Bool-cases, size_mod,
}
use launch_core.Queue.Heap.{Ptr, null, Node, node, Heap, write}
use launch_core.Queue.Chain.{
  Cells, has, first, last, Distinct, Seg, Distinct-around, has-append, has_self, load-ok, last_snoc,
  changed, unchanged, has_last_snoc, ne_of_has,
}
use launch_core.Queue.Simple.{Queue, peek_node, push_node, pop_node, remove_node, empty_queue}
use launch_core.Queue.Fifo.{IsQueue, Yields, SameOutside, push_node-IsQueue}
use launch_core.Queue.Remove.{or_true, pop_node-IsQueue, remove_node-IsQueue}
use launch_core.Pool.{Descriptor, pool, alloc, free}
use launch_core.Pool.Free.{alloc-IsPool, alloc_none, free-IsPool}
use launch_core.Pool.State.{
  IsPool, Yields-run, IsQueue-frame, IsQueue-last, pop_node-empty, set_item-ok,
}
use launch_core.Pool.Fresh.{pool-IsPool}
use launch_core.AllocQueue.{AllocQueue, ◌>>=◌, alloc_queue, push, pop, peek, remove, read}

module _ {T : Type 0} where
  abbrev pub capacity : AllocQueue T → ℕ
  capacity q = length q.pool.descs

  -- The nodes of `cs` are the queue, the newest first, and are just the objects that the pool has
  -- given out.
  pub record Holds (q : AllocQueue T) (cs : Cells T) : Type 0 where
    pub linked : IsQueue q.heap q.list cs
    pub pooled : IsPool q.nodes q.pool (λ a. has a cs) (length cs)
    pub ready : (a : Ptr) → a ≢ null → a ≤ capacity q → (n : Node T) × (q.heap a ≡ some n)

  -- A call that ends without a fault, with what holds then.
  abbrev pub Gives : {A : Type 0} → Option (A × AllocQueue T) → (A → AllocQueue T → Type 0) → Type 0
  Gives none P = ⊥
  Gives (some (a, q)) P = P a q

  pub Gives-run :
      {A : Type 0} (o : Option (A × AllocQueue T)) (P : A → AllocQueue T → Type 0)
      → Gives o P
      → (a : A) × (q : AllocQueue T) × (o ≡ some (a, q)) × P a q
  Gives-run none P y = absurd y
  Gives-run (some (a, q)) P y = (a, q, refl, y)

  pub Seg-has :
      (h : Heap T) (p n : Ptr) (cs : Cells T) (a : Ptr)
      → Seg h p cs n
      → has a cs ≡ true
      → (m : Node T) × (h a ≡ some m)
  Seg-has h p n [] a s o = cc
  Seg-has h p n ((q, v) ∷ cs) a s o = elim (Bool-cases (a == q)) [
    | inl e ↦ let same : a ≡ q = ground arith in (node p (first n cs) v, ap h same ∙ s.1)
    | inr e ↦ Seg-has h q n cs a s.2 (ground arith)
  ]

  -- The objects stay in memory while a queue of some of them is changed.
  pub still_ready :
      {h g : Heap T} {q : Queue} (cs : Cells T) (a : Ptr) (n : Node T)
      → IsQueue g q cs
      → SameOutside cs h g
      → h a ≡ some n
      → (m : Node T) × (g a ≡ some m)
  still_ready {h} {g} cs a n i same e = elim (Bool-cases (has a cs)) [
    | inl o ↦ Seg-has g null null cs a i.chain o
    | inr o ↦ (n, same a o ∙ e)
  ]

  pub write-ready :
      (h : Heap T) (p : Ptr) (n : Node T) (a : Ptr) (k : Node T)
      → h a ≡ some k
      → (m : Node T) × (write h p n a ≡ some m)
  unfolding write
  write-ready h p n a k e = elim (Bool-cases (a == p)) [ inl o ↦ (n, rw o) | inr o ↦ (k, rw o e) ]

  -- Taking one node out of a list of distinct ones.
  pub has-without :
      (cs : Cells T) (p : Ptr) (v : T) (bs : Cells T) (a : Ptr)
      → Distinct (cs ++ ((p, v) ∷ bs))
      → has a (cs ++ bs) ≡ (if a == p then false else has a (cs ++ ((p, v) ∷ bs)))
  has-without [] p v bs a d = ground (arith, d.0)
  has-without ((q, w) ∷ cs) p v bs a d =
      ground (arith, d.0, has-without cs p v bs a d.1, has-append q cs ((p, v) ∷ bs))

module _ {T : Type 0} {q : AllocQueue T} {cs : Cells T} (i : Holds q cs) where
  -- With room, `push` stores the object in a node that was free, at the head.
  pub push-Holds :
      (v : T)
      → length cs < capacity q
      → Gives (push v q) (λ p q'.
        (p ≢ null) × (has p cs ≡ false) × Holds q' ((p, v) ∷ cs) × (capacity q' ≡ capacity q))
  unfolding push
  push-Holds v room =
      let ((p, pl), ns, run, (ne, le, fresh, pooled, len)) =
        Yields-run (alloc q.pool q.nodes) _ (alloc-IsPool i.pooled room) in
      let (n, at) = i.ready p ne le in
      let m : Node T = record n { item = v } in
      let h = write q.heap p m in
      let linked : IsQueue h q.list cs =
        IsQueue-frame (λ a o. unchanged q.heap p m a (ne_of_has a p cs o fresh).1) i.linked in
      let (l, g, run', (g_q, g_same)) = Yields-run (push_node q.list p h) _ (
        push_node-IsQueue h q.list cs p m linked ne (changed q.heap p m) fresh
          (omega (arith, room, i.pooled.small))) in
      let old : (p == null) ≡ false = ground arith in
      rw (run, old, set_item-ok q.heap p n v ne at, run')
        (
          ne,
          fresh,
          record {
            linked = g_q;
            pooled = pooled;
            ready = λ a a_ne a_le.
                let (k, k_at) = i.ready a a_ne (omega (arith, a_le, len)) in
                let (k', k_at') = write-ready q.heap p m a k k_at in
                still_ready ((p, v) ∷ cs) a k' g_q g_same k_at';
          },
          len,
        )

  -- A full queue pushes nothing, and says NULL.
  pub push_full : (v : T) → length cs ≡ capacity q → push v q ≡ some (null, q)
  unfolding push
  push_full v full = rw (alloc_none i.pooled full)

-- A queue with at least one node.
module _ {T : Type 0} {q : AllocQueue T} (cs : Cells T) (p : Ptr) (v : T) (bs : Cells T)
    (i : Holds q (cs ++ ((p, v) ∷ bs))) where
  -- `remove` takes the node out, wherever it stands, and gives it back to the pool.
  pub remove-Holds : Gives (remove p q) (λ _ q'. Holds q' (cs ++ bs) × (capacity q' ≡ capacity q))
  unfolding remove
  remove-Holds =
      let old : Cells T = cs ++ ((p, v) ∷ bs) in
      let new : Cells T = cs ++ bs in
      let (l, g, run, (g_q, g_same)) =
        Yields-run (remove_node q.list p q.heap) _
          (remove_node-IsQueue q.heap q.list cs p v bs i.linked) in
      let held : has p old ≡ true = rw (has-append, has_self p v bs) (or_true (has p cs)) in
      let count : length old ≡ suc (length new) =
        omega (arith, length-append cs ((p, v) ∷ bs), length-append cs bs) in
      let ((ok, pl), ns, run', (_, pooled, len)) = Yields-run (free q.pool p q.nodes) _ (
        free-IsPool i.pooled p (length new) (λ a. has a new) held count
          (λ a. has-without cs p v bs a i.linked.distinct)) in
      rw (run, run')
        (
          record {
            linked = g_q;
            pooled = pooled;
            ready = λ a ne le.
                let (k, k_at) = i.ready a ne (omega (arith, le, len)) in
                still_ready new a k g_q g_same k_at;
          },
          len,
        )

-- A queue whose oldest object is `v`, at `p`.
module _ {T : Type 0} {q : AllocQueue T} (cs : Cells T) (p : Ptr) (v : T)
    (i : Holds q (cs ++ ((p, v) ∷ []))) where
  -- `peek` is where the oldest object is stored.
  pub peek_oldest : (peek q ≡ p) × (read p q ≡ some v)
  unfolding peek peek_node read
  peek_oldest =
      let (ne, at) = IsQueue-last cs p v i.linked in
      let old : (p == null) ≡ false = ground arith in
      (
        rw (i.linked.tail_at, last_snoc, old),
        rw (load-ok q.heap p (node (last null cs) null v) ne at),
      )

  -- `pop` takes the oldest object off the queue, and gives its node back; the memory of the node
  -- still holds the object.
  pub pop-Holds :
      Gives (pop q) (λ _ q'. Holds q' cs × (capacity q' ≡ capacity q) × (read p q' ≡ some v))
  unfolding pop read
  pop-Holds =
      let (ne, at) = IsQueue-last cs p v i.linked in
      let old : (p == null) ≡ false = ground arith in
      let ((r, l), g, run, (r_p, g_q, g_same)) =
        Yields-run (pop_node q.list q.heap) _ (pop_node-IsQueue q.heap q.list cs p v i.linked) in
      let (out, _) = Distinct-around cs p v [] i.linked.distinct in
      let ((ok, pl), ns, run', (_, pooled, len)) = Yields-run (free q.pool p q.nodes) _ (
        free-IsPool i.pooled p (length cs) (λ a. has a cs) (has_last_snoc cs p v)
          (omega (arith, length-append cs ((p, v) ∷ [])))
          (λ a.
            subst (λ l. has a l ≡ (if a == p then false else has a (cs ++ ((p, v) ∷ []))))
              (append-nil cs) (has-without cs p v [] a i.linked.distinct))) in
      rw (run, r_p, old, run')
        (
          record {
            linked = g_q;
            pooled = pooled;
            ready = λ a a_ne le.
                let (k, k_at) = i.ready a a_ne (omega (arith, le, len)) in
                still_ready cs a k g_q g_same k_at;
          },
          len,
          rw (load-ok g p (node (last null cs) null v) ne (g_same p out ∙ at)),
        )

module _ {T : Type 0} {q : AllocQueue T} (i : Holds q []) where
  -- An empty queue: nothing to see, and `pop` does nothing.
  pub pop_empty : (peek q ≡ null) × (pop q ≡ some (tt, q))
  unfolding peek peek_node pop
  pop_empty = (rw i.linked.tail_at, rw (pop_node-empty q.heap q.list i.linked))

-- The constructor makes an empty queue with room for `n` objects.
pub alloc_queue-Holds :
    {T : Type 0} (self : Ptr) (ds : List Descriptor) (n : ℕ) (heap : Heap T) (nodes : Heap Ptr)
    → length ds ≡ n
    → n < size_mod
    → ((a : Ptr) → 0 < a → a ≤ n → (o : Node T) × (heap a ≡ some o))
    → ((a : Ptr) → 0 < a → a ≤ n → (o : Node Ptr) × (nodes a ≡ some o))
    → (q : AllocQueue T) × (alloc_queue self ds n heap nodes ≡ some q)
      × Holds q []
      × (capacity q ≡ n)
unfolding alloc_queue empty_queue
alloc_queue-Holds self ds n heap nodes e small objects ready =
    let (p, g, run, (pooled, len)) = Yields-run (pool self ds n nodes) _ (
      subst
        (λ k.
          Yields (pool self ds k nodes) (λ p g. IsPool g p (λ a. false) 0 × (length p.descs ≡ k)))
        e
        (pool-IsPool self ds nodes (omega (arith, e, small))
          (λ a lt le. ready a lt (omega (arith, e, le))))) in
    (
      record { list = empty_queue; pool = p; heap = heap; nodes = g },
      ap
          (λ o. o >>= λ (p', m).
            some (record { list = empty_queue; pool = p'; heap = heap; nodes = m }))
          run,
      record {
        linked = record {
          head_at = refl;
          tail_at = refl;
          count = refl;
          small = omega arith;
          chain = tt;
          distinct = tt;
        };
        pooled = pooled;
        ready = λ a ne le. objects a (omega arith) (omega (arith, le, len));
      },
      len,
    )
