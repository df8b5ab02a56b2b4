-- ===== src/Queue/Remove.antt =====
-- SimpleQueue::pop_node and remove_node: a node is unlinked and the others stay as they were.
use launch_core.Prelude.{
  ◌≡◌, ◌∙◌, refl, sym, ap, Bool, true, false, ◌||◌, inl, inr, some, [], ◌∷◌, ◌++◌, arith, ◌==◌,
  length-append, append-nil,
}
use launch_core.Queue.Heap.{Ptr, null, Node, node, Heap, write}
use launch_core.Queue.Chain.{
  Cells, has, Distinct, first, last, Seg, Seg-frame, Seg-split, Seg-join, set_prev-ok, set_next-ok,
  load-ok, last-append, first-append, has-append, has-first, ne_of_has, Distinct-around, has_self,
  has_last_snoc, has-last_cons, first_snoc, snoc-cases, has_snoc, last_snoc, Distinct-split,
  Distinct-join,
}
use launch_core.Queue.Simple.{Queue, pop_node, remove_node}
use launch_core.Queue.Fifo.{IsQueue, Yields, SameOutside}

pub or_true : (b : Bool) → (b || true) ≡ true
or_true true = refl
or_true false = refl

module _ {T : Type 0} where
  -- A chain of at least one node whose last `next` is redirected.
  pub redirect_last :
      (h : Heap T) (p n n' : Ptr) (cs : Cells T) (x : Ptr) (v : T)
      → Seg h p (cs ++ ((x, v) ∷ [])) n
      → Distinct (cs ++ ((x, v) ∷ []))
      → Seg (write h x (node (last p cs) n' v)) p (cs ++ ((x, v) ∷ [])) n'
  unfolding write
  redirect_last h p n n' cs x v s d =
      let (l, r) = Seg-split h p n cs ((x, v) ∷ []) s in
      let (_, _, apart) = Distinct-split cs ((x, v) ∷ []) d in
      Seg-join (write h x (node (last p cs) n' v)) p n' cs ((x, v) ∷ [])
        (Seg-frame p x cs (λ a o. ground (arith, apart a)) l) (r.0, ground arith, tt)

  -- A chain whose first `prev` is redirected.
  pub redirect_first :
      (h : Heap T) (p p' n : Ptr) (cs : Cells T) (x : Ptr) (v : T)
      → Seg h p ((x, v) ∷ cs) n
      → Distinct ((x, v) ∷ cs)
      → Seg (write h x (node p' (first n cs) v)) p' ((x, v) ∷ cs) n
  unfolding write
  redirect_first h p p' n cs x v s d =
      (s.0, ground arith, Seg-frame x n cs (λ a o. ground (arith, d.0)) s.2)

  -- Writes to two nodes of a chain.
  same_outside :
      (h : Heap T) (y z : Ptr) (n m : Node T) (cs : Cells T)
      → has y cs ≡ true
      → has z cs ≡ true
      → SameOutside cs h (write (write h y n) z m)
  unfolding write
  same_outside h y z n m cs yin zin a o =
      rw ((ne_of_has z a cs zin o).0, (ne_of_has y a cs yin o).0)

  pop_last :
      (h : Heap T) (q : Queue) (p : Ptr) (v : T)
      → IsQueue h q ((p, v) ∷ [])
      → Yields (pop_node q h) (λ (r, q') g. (r ≡ p) × IsQueue g q' [] × SameOutside [] h g)
  unfolding pop_node
  pop_last h q p v i =
      let old : (p == null) ≡ false = ground (arith, i.chain.0) in
      rw (i.tail_at, old, load-ok h p (node null null v) i.chain.0 i.chain.1)
        (
          refl,
          record {
            head_at = refl;
            tail_at = refl;
            count = omega (arith, i.count);
            small = omega arith;
            chain = tt;
            distinct = tt;
          },
          λ a o. refl,
        )

  pop_more :
      (h : Heap T) (q : Queue) (ds : Cells T) (y : Ptr) (w : T) (p : Ptr) (v : T)
      → IsQueue h q ((ds ++ ((y, w) ∷ [])) ++ ((p, v) ∷ []))
      → let cs = ds ++ ((y, w) ∷ []) in
        Yields (pop_node q h) (λ (r, q') g. (r ≡ p) × IsQueue g q' cs × SameOutside cs h g)
  unfolding pop_node write
  pop_more h q ds y w p v i =
      let cs : Cells T = ds ++ ((y, w) ∷ []) in
      let (l, r) = Seg-split h null null cs ((p, v) ∷ []) i.chain in
      let (d, _, _) = Distinct-split cs ((p, v) ∷ []) i.distinct in
      let (_, at) = Seg-split h null p ds ((y, w) ∷ []) l in
      let tail_at : q.tail ≡ p = i.tail_at ∙ last_snoc null cs p v in
      let here : h p ≡ some (node y null v) =
        r.1 ∙ ap (λ t. some (node t null v)) (last_snoc null ds y w) in
      let p_ok : (p == null) ≡ false = ground (arith, r.0) in
      let y_ok : (y == null) ≡ false = ground (arith, at.0) in
      let size = length-append cs ((p, v) ∷ []) in
      rw
        (
          tail_at,
          p_ok,
          load-ok h p (node y null v) r.0 here,
          y_ok,
          set_next-ok h y (node (last null ds) p w) at.0 at.1 null,
        )
        (
          refl,
          record {
            head_at = i.head_at ∙ first-append null cs ((p, v) ∷ []) ∙ first_snoc p null ds y w;
            tail_at = sym (last_snoc null ds y w);
            count = omega (arith, i.count, i.small, size);
            small = omega (arith, i.small, size);
            chain = redirect_last h null p null ds y w l d;
            distinct = d;
          },
          λ a o. ground (arith, has_snoc a ds y w),
        )

  -- `pop_node` returns the node at the tail, and leaves the queue of the others.
  pub pop_node-IsQueue :
      (h : Heap T) (q : Queue) (cs : Cells T) (p : Ptr) (v : T)
      → IsQueue h q (cs ++ ((p, v) ∷ []))
      → Yields (pop_node q h) (λ (r, q') g. (r ≡ p) × IsQueue g q' cs × SameOutside cs h g)
  pop_node-IsQueue h q cs p v i = elim (snoc-cases cs) [
    | inl e ↦ rw e (pop_last h q p v (rw e at i))
    | inr (ds, y, w, e) ↦ rw e (pop_more h q ds y w p v (rw e at i))
  ]

  -- The head is removed and another node takes its place.
  remove_head :
      (h : Heap T) (q : Queue) (p : Ptr) (v : T) (y : Ptr) (w : T) (bs : Cells T)
      → IsQueue h q ((p, v) ∷ (y, w) ∷ bs)
      → Yields
          (remove_node q p h)
          (λ q' g. IsQueue g q' ((y, w) ∷ bs) × SameOutside ((y, w) ∷ bs) h g)
  unfolding remove_node write
  remove_head h q p v y w bs i =
      let same : (p == p) ≡ true = ground arith in
      let more : (null == y) ≡ false = ground (arith, i.chain.2.0) in
      rw
        (
          i.head_at,
          same,
          load-ok h p (node null y v) i.chain.0 i.chain.1,
          more,
          set_prev-ok h y (node p (first null bs) w) i.chain.2.0 i.chain.2.1 null,
        )
        (
          record {
            head_at = refl;
            tail_at = i.tail_at;
            count = omega (arith, i.count, i.small);
            small = omega (arith, i.small);
            chain = redirect_first h p null null bs y w i.chain.2 i.distinct.1;
            distinct = i.distinct.1;
          },
          λ a o. ground arith,
        )

  -- The only node is removed.
  remove_only :
      (h : Heap T) (q : Queue) (p : Ptr) (v : T)
      → IsQueue h q ((p, v) ∷ [])
      → Yields (remove_node q p h) (λ q' g. IsQueue g q' [] × SameOutside [] h g)
  unfolding remove_node
  remove_only h q p v i =
      let same : (p == p) ≡ true = ground arith in
      rw (i.head_at, same, load-ok h p (node null null v) i.chain.0 i.chain.1)
        (
          record {
            head_at = refl;
            tail_at = refl;
            count = omega (arith, i.count);
            small = omega arith;
            chain = tt;
            distinct = tt;
          },
          λ a o. refl,
        )

  -- The tail is removed and another node takes its place.
  remove_tail :
      (h : Heap T) (q : Queue) (ds : Cells T) (y : Ptr) (w : T) (p : Ptr) (v : T)
      → IsQueue h q ((ds ++ ((y, w) ∷ [])) ++ ((p, v) ∷ []))
      → let cs = ds ++ ((y, w) ∷ []) in
        Yields (remove_node q p h) (λ q' g. IsQueue g q' cs × SameOutside cs h g)
  unfolding remove_node write
  remove_tail h q ds y w p v i =
      let cs : Cells T = ds ++ ((y, w) ∷ []) in
      let (l, r) = Seg-split h null null cs ((p, v) ∷ []) i.chain in
      let (d, _, apart) = Distinct-split cs ((p, v) ∷ []) i.distinct in
      let (_, at) = Seg-split h null p ds ((y, w) ∷ []) l in
      let head_at : q.head ≡ first null cs =
        i.head_at ∙ first-append null cs ((p, v) ∷ []) ∙ first_snoc p null ds y w in
      let tail_at : q.tail ≡ p = i.tail_at ∙ last_snoc null cs p v in
      let not_head : (p == q.head) ≡ false =
        rw head_at (ground (arith, apart p, has-first null ds y w)) in
      let is_tail : (p == q.tail) ≡ true = ground (arith, tail_at) in
      let here : h p ≡ some (node y null v) =
        r.1 ∙ ap (λ t. some (node t null v)) (last_snoc null ds y w) in
      let size = length-append cs ((p, v) ∷ []) in
      rw
        (
          not_head,
          is_tail,
          load-ok h p (node y null v) r.0 here,
          set_next-ok h y (node (last null ds) p w) at.0 at.1 null,
        )
        (
          record {
            head_at = head_at;
            tail_at = sym (last_snoc null ds y w);
            count = omega (arith, i.count, i.small, size);
            small = omega (arith, i.small, size);
            chain = redirect_last h null p null ds y w l d;
            distinct = d;
          },
          λ a o. ground (arith, has_snoc a ds y w),
        )

  -- A node between two others is removed.
  remove_middle :
      (h : Heap T) (q : Queue) (ds : Cells T) (y : Ptr) (w : T) (p : Ptr) (v : T) (z : Ptr) (u : T)
      (bs : Cells T)
      → IsQueue h q ((ds ++ ((y, w) ∷ [])) ++ ((p, v) ∷ (z, u) ∷ bs))
      → let cs = (ds ++ ((y, w) ∷ [])) ++ ((z, u) ∷ bs) in
        Yields (remove_node q p h) (λ q' g. IsQueue g q' cs × SameOutside cs h g)
  unfolding remove_node write
  remove_middle h q ds y w p v z u bs i =
      let cs : Cells T = ds ++ ((y, w) ∷ []) in
      let rest : Cells T = (z, u) ∷ bs in
      let (l, r) = Seg-split h null null cs ((p, v) ∷ rest) i.chain in
      let (d, e, _) = Distinct-split cs ((p, v) ∷ rest) i.distinct in
      let (out, apart) = Distinct-around cs p v rest i.distinct in
      let (_, at) = Seg-split h null p ds ((y, w) ∷ []) l in
      let head_at : q.head ≡ first null cs =
        i.head_at ∙ first-append null cs ((p, v) ∷ rest) ∙ first_snoc p null ds y w in
      let tail_at : q.tail ≡ last z bs = i.tail_at ∙ last-append null cs ((p, v) ∷ rest) in
      let not_head : (p == q.head) ≡ false =
        rw head_at (ne_of_has (first null cs) p cs (has-first null ds y w) out).0 in
      let not_tail : (p == q.tail) ≡ false =
        rw tail_at (ne_of_has (last z bs) p rest (has-last_cons null z u bs) e.0).0 in
      let back : last null cs ≡ y = last_snoc null ds y w in
      let here : h p ≡ some (node y z v) = r.1 ∙ ap (λ t. some (node t z v)) back in
      let yin : has y cs ≡ true = has_last_snoc ds y w in
      let h1 = write h y (node (last null ds) z w) in
      let here1 : h1 p ≡ some (node y z v) = rw (ne_of_has y p cs yin out).0 here in
      let next1 : h1 z ≡ some (node p (first null bs) u) =
        rw (ne_of_has z y rest (has_self z u bs) (apart y yin)).1 r.2.1 in
      let h2 = write h1 z (node y (first null bs) u) in
      let left : Seg h2 null cs z =
        Seg-frame null z cs (λ a o. rw (ne_of_has z a rest (has_self z u bs) (apart a o)).0)
          (redirect_last h null p z ds y w l d) in
      let kept : Seg h1 p rest null =
        Seg-frame p null rest (λ a o. rw (ne_of_has a y rest o (apart y yin)).1) r.2 in
      let right : Seg h2 (last null cs) rest null =
        rw back (redirect_first h1 p y null bs z u kept e.1) in
      let size = length-append cs ((p, v) ∷ rest) in
      let size' = length-append cs rest in
      rw
        (
          not_head,
          not_tail,
          load-ok h p (node y z v) r.0 here,
          set_next-ok h y (node (last null ds) p w) at.0 at.1 z,
          load-ok h1 p (node y z v) r.0 here1,
          set_prev-ok h1 z (node p (first null bs) u) r.2.0 next1 y,
        )
        (
          record {
            head_at = head_at ∙ first_snoc null z ds y w ∙ sym (first-append null cs rest);
            tail_at = tail_at ∙ sym (last-append null cs rest);
            count = omega (arith, i.count, i.small, size, size');
            small = omega (arith, i.small, size, size');
            chain = Seg-join h2 null null cs rest left right;
            distinct = Distinct-join cs rest d e.1 apart;
          },
          same_outside h y z _ _ (cs ++ rest) (rw (has-append, yin) refl)
              (rw (has-append, has_self z u bs) (or_true (has z cs))),
        )

  -- `remove_node` of any node of the queue leaves the queue of the others, in their order.
  pub remove_node-IsQueue :
      (h : Heap T) (q : Queue) (cs : Cells T) (p : Ptr) (v : T) (bs : Cells T)
      → IsQueue h q (cs ++ ((p, v) ∷ bs))
      → Yields (remove_node q p h) (λ q' g. IsQueue g q' (cs ++ bs) × SameOutside (cs ++ bs) h g)
  remove_node-IsQueue h q cs p v [] i = elim (snoc-cases cs) [
    | inl e ↦ rw e (remove_only h q p v (rw e at i))
    | inr (ds, y, w, e) ↦ rw (append-nil, e) (remove_tail h q ds y w p v (rw e at i))
  ]
  remove_node-IsQueue h q cs p v ((z, u) ∷ bs) i = elim (snoc-cases cs) [
    | inl e ↦ rw e (remove_head h q p v z u bs (rw e at i))
    | inr (ds, y, w, e) ↦ rw e (remove_middle h q ds y w p v z u bs (rw e at i))
  ]
