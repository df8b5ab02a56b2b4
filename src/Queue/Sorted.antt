-- ===== src/Queue/Sorted.antt =====
-- SimpleSortedQueue::push_node: where the new node goes, and which links are set.
use mathlib.Core.Path.{subst}
use launch_core.Prelude.{
  ℕ, zero, suc, ◌<◌, ◌≡◌, ◌≢◌, ◌∙◌, refl, sym, ap, Bool, true, false, some, List, [], ◌∷◌, ◌++◌,
  ◌||◌, arith, ◌==◌, if◌then◌else◌, length, length-append, size_mod, Bool-cases, add_size, inl, inr,
}
use launch_core.Queue.Heap.{Ptr, null, Node, node, Heap, write}
use launch_core.Queue.Chain.{
  Cells, has, first, last, Seg, Seg-frame, Seg-split, Seg-join, set_prev-ok, set_next-ok, load-ok,
  first-append, has-append, has-first, ne_of_has, has_self, has_snoc, has_last_snoc, first_snoc,
  last_snoc, Distinct-split, Distinct-join,
}
use launch_core.Queue.Simple.{Queue, push_node, scan, push_sorted, iterate, visit}
use launch_core.Queue.Fifo.{IsQueue, Yields, SameOutside, push_node-IsQueue}
use launch_core.Queue.Remove.{redirect_last, redirect_first, or_true}

module _ {T : Type 0} (sort : T → T → Bool) where
  -- the first node of `cs` that goes before `v`, or NULL
  unfoldable pub find : T → Cells T → Ptr
  find v [] = null
  find v ((x, u) ∷ cs) = if sort u v then x else find v cs

  -- The scan ends, within `length cs + 1` rounds, at the first node that goes before `v`.
  pub scan-find :
      (h : Heap T) (v : T) (p : Ptr) (cs : Cells T) (fuel : ℕ)
      → Seg h p cs null
      → length cs < fuel
      → scan sort v fuel (first null cs) h ≡ some (find v cs, h)
  unfolding scan find
  scan-find h v p [] zero s f = absurd (omega arith)
  scan-find h v p [] (suc fuel) s f = refl
  scan-find h v p ((x, u) ∷ cs) zero s f = absurd (omega arith)
  scan-find h v p ((x, u) ∷ cs) (suc fuel) s f =
      let more : (x == null) ≡ false = ground (arith, s.0) in
      rw (more, load-ok h x (node p (first null cs) u) s.0 s.1)
        (elim (Bool-cases (sort u v)) [
          | inl b ↦ rw b
          | inr b ↦ rw b (scan-find h v x cs fuel s.2 (omega arith))
        ])

module _ {T : Type 0} where
  -- Following `next`, or `prev`, through the nodes of `cs`.
  abbrev pub Forward : Heap T → Cells T → Ptr → Type 0
  Forward h [] n = Unit {0}
  Forward h ((x, v) ∷ cs) n =
      (x ≢ null) × ((m : Node T) × (h x ≡ some m) × (m.next ≡ first n cs)) × Forward h cs n

  abbrev pub Backward : Heap T → Ptr → Cells T → Type 0
  Backward h p [] = Unit {0}
  Backward h p ((x, v) ∷ cs) =
      (x ≢ null) × ((m : Node T) × (h x ≡ some m) × (m.prev ≡ p)) × Backward h x cs

  abbrev pub addresses : Cells T → List Ptr
  addresses [] = []
  addresses ((x, v) ∷ cs) = x ∷ addresses cs

  pub visit-Forward :
      (h : Heap T) (cs : Cells T) (fuel : ℕ)
      → Forward h cs null
      → length cs < fuel
      → visit fuel (first null cs) h ≡ some (addresses cs, h)
  unfolding visit iterate
  visit-Forward h [] zero s f = absurd (omega arith)
  visit-Forward h [] (suc fuel) s f = refl
  visit-Forward h ((x, v) ∷ cs) zero s f = absurd (omega arith)
  visit-Forward h ((x, v) ∷ cs) (suc fuel) s f =
      let more : (x == null) ≡ false = ground (arith, s.0) in
      rw (more, load-ok h x s.1.0 s.0 s.1.1, s.1.2, visit-Forward h cs fuel s.2 (omega arith))

  pub Forward-of_Seg : (h : Heap T) (p n : Ptr) (cs : Cells T) → Seg h p cs n → Forward h cs n
  Forward-of_Seg h p n [] s = tt
  Forward-of_Seg h p n ((x, v) ∷ cs) s =
      (s.0, (node p (first n cs) v, s.1, refl), Forward-of_Seg h x n cs s.2)

  pub Backward-of_Seg : (h : Heap T) (p n : Ptr) (cs : Cells T) → Seg h p cs n → Backward h p cs
  Backward-of_Seg h p n [] s = tt
  Backward-of_Seg h p n ((x, v) ∷ cs) s =
      (s.0, (node p (first n cs) v, s.1, refl), Backward-of_Seg h x n cs s.2)

  Forward-join :
      (h : Heap T) (n : Ptr) (cs ds : Cells T)
      → Forward h cs (first n ds)
      → Forward h ds n
      → Forward h (cs ++ ds) n
  Forward-join h n [] ds l r = r
  Forward-join h n ((q, v) ∷ cs) ds l r =
      (l.0, (l.1.0, l.1.1, rw first-append l.1.2), Forward-join h n cs ds l.2 r)

  Backward-join :
      (h : Heap T) (p : Ptr) (cs ds : Cells T)
      → Backward h p cs
      → Backward h (last p cs) ds
      → Backward h p (cs ++ ds)
  Backward-join h p [] ds l r = r
  Backward-join h p ((q, v) ∷ cs) ds l r = (l.0, l.1, Backward-join h q cs ds l.2 r)

split_or : (b c : Bool) → (b || c) ≡ false → (b ≡ false) × (c ≡ false)
split_or b c e = ground arith

module _ {T : Type 0} where
  self_write : (h : Heap T) (p : Ptr) (n : Node T) → write h p n p ≡ some n
  unfolding write
  self_write h p n = ground arith

  -- Two writes at one node and one at another leave the other nodes alone.
  same_after :
      (h : Heap T) (p y : Ptr) (n1 n2 m : Node T) (a : Ptr)
      → (a == p) ≡ false
      → (a == y) ≡ false
      → write (write (write h p n1) p n2) y m a ≡ h a
  unfolding write
  same_after h p y n1 n2 m a e o = rw (o, e)

  first_ne_null :
      (h : Heap T) (p n : Ptr) (cs : Cells T)
      → Seg h p cs n
      → (a : Ptr) → has a cs ≡ true
      → (null == a) ≡ false
  first_ne_null h p n [] s a o = cc
  first_ne_null h p n ((x, v) ∷ cs) s a o = ground (arith, s.0, first_ne_null h x n cs s.2 a)

-- A queue of at least one node, and a node that is pushed onto it.
module _ {T : Type 0} (sort : T → T → Bool) (h : Heap T) (q : Queue) (p : Ptr) (n : Node T)
    (ne : p ≢ null) (here : h p ≡ some n) where
  same_when_empty : IsQueue h q [] → push_node q p h ≡ push_sorted sort q p h
  unfolding push_node push_sorted
  same_when_empty i = rw i.head_at

  -- Onto an empty queue the node is pushed as onto a SimpleQueue.
  pub push_sorted_empty :
      IsQueue h q []
      → Yields
          (push_sorted sort q p h)
          (λ q' g. IsQueue g q' ((p, n.item) ∷ []) × SameOutside ((p, n.item) ∷ []) h g)
  push_sorted_empty i =
      let one = push_node-IsQueue h q [] p n i ne here refl (omega arith) in
      subst
        (λ r.
          Yields r (λ q' g. IsQueue g q' ((p, n.item) ∷ []) × SameOutside ((p, n.item) ∷ []) h g))
        (same_when_empty i) one

  -- If no node goes before the new one, it is linked behind the tail, and no node off the queue
  -- changes.
  pub push_sorted_tail :
      (ds : Cells T) (y : Ptr) (w : T)
      → let cs = ds ++ ((y, w) ∷ []) in
        IsQueue h q cs
        → has p cs ≡ false
        → suc (length cs) < size_mod
        → find sort n.item cs ≡ null
        → Yields (push_sorted sort q p h) (λ q' g.
          IsQueue g q' (cs ++ ((p, n.item) ∷ [])) × SameOutside (cs ++ ((p, n.item) ∷ [])) h g)
  unfolding push_sorted write
  push_sorted_tail ds y w i fresh small end =
      let cs : Cells T = ds ++ ((y, w) ∷ []) in
      let (l, at) = Seg-split h null null ds ((y, w) ∷ []) i.chain in
      let tail_at : q.tail ≡ y = i.tail_at ∙ last_snoc null ds y w in
      let yin = has_last_snoc ds y w in
      let h_ne : (null == first null cs) ≡ false =
        first_ne_null h null null cs i.chain (first null cs) (has-first null ds y w) in
      let n1 : Node T = record n { prev = y } in
      let h1 = write h p n1 in
      let n2 : Node T = record n1 { next = null } in
      let h2 = write h1 p n2 in
      let at2 : h2 y ≡ some (node (last null ds) null w) = rw (ne_of_has y p cs yin fresh).1 at.1 in
      let kept : Seg h2 null cs null =
        Seg-frame null null cs (λ a o. rw (ne_of_has a p cs o fresh).1) i.chain in
      let h3 = write h2 y (node (last null ds) p w) in
      let new : h3 p ≡ some (node (last null cs) null n.item) =
        rw ((ne_of_has y p cs yin fresh).0, last_snoc) (self_write h1 p n2) in
      let size = length-append cs ((p, n.item) ∷ []) in
      rw
        (
          i.head_at,
          h_ne,
          load-ok h p n ne here,
          scan-find sort h n.item null cs (suc (add_size q.size 1)) i.chain
              (omega (arith, i.count, i.small)),
          end,
          tail_at,
          set_prev-ok h p n ne here y,
          set_next-ok h1 p n1 ne (self_write h p n1) null,
          set_next-ok h2 y (node (last null ds) null w) at.0 at2 p,
        )
        ((
          record {
            head_at = first_snoc null p ds y w ∙ sym (first-append null cs ((p, n.item) ∷ []));
            tail_at = sym (last_snoc null cs p n.item);
            count = omega (arith, i.count, i.small, size);
            small = omega (arith, small, size);
            chain =
                Seg-join h3 null null cs ((p, n.item) ∷ [])
                  (redirect_last h2 null null p ds y w kept i.distinct) (ne, new, tt);
            distinct =
                Distinct-join cs ((p, n.item) ∷ []) i.distinct (refl, tt)
                  (λ a o. rw (ne_of_has a p cs o fresh).1);
          },
          λ a o.
              let (a_cs, a_p) = split_or (has a cs) (a == p) (sym (has_snoc a cs p n.item) ∙ o) in
              same_after h p y n1 n2 (node (last null ds) p w) a a_p (ne_of_has y a cs yin a_cs).0,
        ))

  -- If the head goes before the new node, the new node becomes the head, and no node off the queue
  -- changes.
  pub push_sorted_head :
      (z : Ptr) (u : T) (bs : Cells T)
      → IsQueue h q ((z, u) ∷ bs)
      → has p ((z, u) ∷ bs) ≡ false
      → suc (suc (length bs)) < size_mod
      → sort u n.item ≡ true
      → Yields (push_sorted sort q p h) (λ q' g.
        IsQueue g q' ((p, n.item) ∷ (z, u) ∷ bs) × SameOutside ((p, n.item) ∷ (z, u) ∷ bs) h g)
  unfolding push_sorted write find
  push_sorted_head z u bs i fresh small first_one =
      let cs : Cells T = (z, u) ∷ bs in
      let zin = has_self z u bs in
      let z_null : (null == z) ≡ false = ground (arith, i.chain.0) in
      let null_z : (z == null) ≡ false = ground (arith, i.chain.0) in
      let self : (z == z) ≡ true = ground arith in
      let n1 : Node T = record n { next = z } in
      let h1 = write h p n1 in
      let z1 : h1 z ≡ some (node null (first null bs) u) =
        rw (ne_of_has z p cs zin fresh).1 i.chain.1 in
      let n2 : Node T = record n1 { prev = null } in
      let h2 = write h1 p n2 in
      let z2 : h2 z ≡ some (node null (first null bs) u) =
        rw (ne_of_has z p cs zin fresh).1 i.chain.1 in
      let kept : Seg h2 null cs null =
        Seg-frame null null cs (λ a o. rw (ne_of_has a p cs o fresh).1) i.chain in
      let h3 = write h2 z (node p (first null bs) u) in
      let new : h3 p ≡ some n2 = rw (ne_of_has z p cs zin fresh).0 (self_write h1 p n2) in
      rw
        (
          i.head_at,
          z_null,
          load-ok h p n ne here,
          scan-find sort h n.item null cs (suc (add_size q.size 1)) i.chain
              (omega (arith, i.count, i.small)),
          first_one,
          null_z,
          set_next-ok h p n ne here z,
          load-ok h1 z (node null (first null bs) u) i.chain.0 z1,
          set_prev-ok h1 p n1 ne (self_write h p n1) null,
          set_prev-ok h2 z (node null (first null bs) u) i.chain.0 z2 p,
          self,
        )
        ((
          record {
            head_at = refl;
            tail_at = i.tail_at;
            count = omega (arith, i.count, i.small);
            small = small;
            chain = (ne, new, redirect_first h2 null p null bs z u kept i.distinct);
            distinct = (fresh, i.distinct);
          },
          λ a o.
              let (a_p, a_cs) = split_or (a == p) (has a cs) o in
              same_after h p z n1 n2 (node p (first null bs) u) a a_p (ne_of_has z a cs zin a_cs).0,
        ))

  -- If the first node that goes before the new one is not the head, then the new node is missing
  -- from the `next` links: the iterator meets the old nodes and no other. Only the `prev` links,
  -- which pops follow from the tail, lead through it.
  pub push_sorted_middle :
      (ds : Cells T) (y : Ptr) (w : T) (z : Ptr) (u : T) (bs : Cells T)
      → let cs = ds ++ ((y, w) ∷ []) in
        let old = cs ++ ((z, u) ∷ bs) in
        IsQueue h q old
        → has p old ≡ false
        → suc (length old) < size_mod
        → find sort n.item old ≡ z
        → Yields (push_sorted sort q p h) (λ q' g.
          (visit (suc (length old)) q'.head g ≡ some (addresses old, g))
          × (q'.tail ≡ q.tail)
          × Backward g null (cs ++ ((p, n.item) ∷ (z, u) ∷ bs)))
  unfolding push_sorted write
  push_sorted_middle ds y w z u bs i fresh small found =
      let cs : Cells T = ds ++ ((y, w) ∷ []) in
      let rest : Cells T = (z, u) ∷ bs in
      let old : Cells T = cs ++ rest in
      let (l, r) = Seg-split h null null cs rest i.chain in
      let (_, d, apart) = Distinct-split cs rest i.distinct in
      let zin : has z old ≡ true = rw (has-append, has_self z u bs) (or_true (has z cs)) in
      let yin = has_last_snoc ds y w in
      let back : last null cs ≡ y = last_snoc null ds y w in
      let top : Ptr = first null old in
      let top_in : has top cs ≡ true =
        rw (first-append, first_snoc z null ds y w) (has-first null ds y w) in
      let top_ok : (null == top) ≡ false = first_ne_null h null z cs l top top_in in
      let z_ok : (z == null) ≡ false = ground (arith, r.0) in
      let z_top : (z == top) ≡ false =
        (ne_of_has z top rest (has_self z u bs) (apart top top_in)).1 in
      let at : h z ≡ some (node y (first null bs) u) =
        r.1 ∙ ap (λ t. some (node t (first null bs) u)) back in
      let z_p : (z == p) ≡ false = (ne_of_has z p old zin fresh).1 in
      let p_z : (p == z) ≡ false = (ne_of_has z p old zin fresh).0 in
      let n1 : Node T = record n { next = z } in
      let h1 = write h p n1 in
      let at1 : h1 z ≡ some (node y (first null bs) u) = rw z_p at in
      let n2 : Node T = record n1 { prev = y } in
      let h2 = write h1 p n2 in
      let at2 : h2 z ≡ some (node y (first null bs) u) = rw z_p at in
      let z3 : Node T = node p (first null bs) u in
      let h3 = write h2 z z3 in
      let new : h3 p ≡ some n2 = rw p_z (self_write h1 p n2) in
      let l3 : Seg h3 null cs z =
        Seg-frame null z cs
          (λ a o. rw (
            (ne_of_has z a rest (has_self z u bs) (apart a o)).0,
            (ne_of_has a p old (rw (has-append, o)) fresh).1,
          ))
          l in
      let r3 : Seg h3 z bs null =
        Seg-frame z null bs
          (λ a o. rw (
            (ne_of_has a z bs o d.0).1,
            (ne_of_has a p old (rw (has-append, o, or_true, or_true)) fresh).1,
          ))
          r.2 in
      rw
        (
          i.head_at,
          top_ok,
          load-ok h p n ne here,
          scan-find sort h n.item null old (suc (add_size q.size 1)) i.chain
              (omega (arith, i.count, i.small)),
          found,
          z_ok,
          set_next-ok h p n ne here z,
          load-ok h1 z (node y (first null bs) u) r.0 at1,
          set_prev-ok h1 p n1 ne (self_write h p n1) y,
          set_prev-ok h2 z (node y (first null bs) u) r.0 at2 p,
          z_top,
        )
        (
          visit-Forward h3 old (suc (length old))
              (Forward-join h3 null cs rest (Forward-of_Seg h3 null z cs l3)
                (r.0, (z3, self_write h2 z z3, refl), Forward-of_Seg h3 z null bs r3))
              (omega arith),
          refl,
          Backward-join h3 null cs ((p, n.item) ∷ rest) (Backward-of_Seg h3 null z cs l3) (
            ne,
            (n2, new, sym back),
            (r.0, (z3, self_write h2 z z3, refl), Backward-of_Seg h3 z null bs r3),
          ),
        )
