-- ===== src/AllocQueue/Order.antt =====
-- alloc::SortedQueue::push, where the new object belongs at one of the two ends.
use mathlib.Core.Path.{subst, subst⁻¹, fun_ext, ap₂}
use launch_core.Prelude.{
  suc, ◌<◌, ◌≡◌, ◌≢◌, ◌⊎◌, ◌∙◌, refl, sym, ap, Bool, true, false, inl, inr, some, [], ◌∷◌, ◌++◌,
  arith, ◌==◌, if◌then◌else◌, length, Bool-cases, size_mod,
}
use launch_core.Queue.Heap.{Ptr, null, Node, Heap, write}
use launch_core.Queue.Chain.{Cells, has, first, Seg, snoc-cases, changed, unchanged, ne_of_has}
use launch_core.Queue.Simple.{Queue, push_sorted}
use launch_core.Queue.Fifo.{IsQueue, Yields, SameOutside}
use launch_core.Queue.Sorted.{find, push_sorted_empty, push_sorted_tail, push_sorted_head}
use launch_core.Pool.{alloc}
use launch_core.Pool.Free.{alloc-IsPool}
use launch_core.Pool.State.{IsPool, Yields-run, IsQueue-frame, set_item-ok}
use launch_core.AllocQueue.{AllocQueue, push_in_order}
use launch_core.AllocQueue.Contents.{Holds, Gives, capacity, still_ready, write-ready}

module _ {T : Type 0} (sort : T → T → Bool) where
  -- Where a sorted queue ought to put an object: before the first node that goes before it.
  unfoldable pub insert : Ptr → T → Cells T → Cells T
  insert p v [] = (p, v) ∷ []
  insert p v ((x, u) ∷ cs) = if sort u v then (p, v) ∷ (x, u) ∷ cs else (x, u) ∷ insert p v cs

  pub has-insert : (a p : Ptr) (v : T) (cs : Cells T) → has a (insert p v cs) ≡ has a ((p, v) ∷ cs)
  unfolding insert
  has-insert a p v [] = refl
  has-insert a p v ((x, u) ∷ cs) = ground (arith, has-insert a p v cs)

  pub length-insert : (p : Ptr) (v : T) (cs : Cells T) → length (insert p v cs) ≡ suc (length cs)
  unfolding insert
  length-insert p v [] = refl
  length-insert p v ((x, u) ∷ cs) = ground (arith, length-insert p v cs)

  -- That place is the head's or the one behind the tail.
  abbrev pub AtEnd : T → Cells T → Type 0
  AtEnd v cs = (find sort v cs ≡ null) ⊎ (find sort v cs ≡ first null cs)

  pub find_none :
      (h : Heap T) (a n p : Ptr) (v : T) (cs : Cells T)
      → Seg h a cs n
      → find sort v cs ≡ null
      → insert p v cs ≡ cs ++ ((p, v) ∷ [])
  unfolding find insert
  find_none h a n p v [] s e = refl
  find_none h a n p v ((x, u) ∷ cs) s e = elim (Bool-cases (sort u v)) [
    | inl o ↦ absurd (s.0 (rw o at e))
    | inr o ↦ rw o (ap (λ l. (x, u) ∷ l) (find_none h x n p v cs s.2 (rw o at e)))
  ]

  find-has : (v : T) (cs : Cells T) (z : Ptr) → find sort v cs ≡ z → z ≢ null → has z cs ≡ true
  unfolding find
  find-has v [] z e ne = absurd (ne (sym e))
  find-has v ((x, u) ∷ cs) z e ne = elim (Bool-cases (sort u v)) [
    | inl o ↦ let same : x ≡ z = rw o at e in rw same (ground arith)
    | inr o ↦ ground (arith, find-has v cs z (rw o at e) ne)
  ]

  find_first :
      (z : Ptr) (u v : T) (bs : Cells T)
      → z ≢ null
      → has z bs ≡ false
      → find sort v ((z, u) ∷ bs) ≡ z
      → sort u v ≡ true
  unfolding find
  find_first z u v bs ne out e = elim (Bool-cases (sort u v)) [
    | inl o ↦ o
    | inr o ↦ cc (find-has v bs z (rw o at e) ne)
  ]

  module _ (h : Heap T) (q : Queue) (p : Ptr) (n : Node T) (ne : p ≢ null)
      (here : h p ≡ some n) where
    -- At an end, the node is linked where it belongs.
    pub push_sorted-insert :
        (cs : Cells T)
        → IsQueue h q cs
        → has p cs ≡ false
        → suc (length cs) < size_mod
        → AtEnd n.item cs
        → Yields
            (push_sorted sort q p h)
            (λ q' g. IsQueue g q' (insert p n.item cs) × SameOutside (insert p n.item cs) h g)
    unfolding insert find
    push_sorted-insert [] i fresh small end = push_sorted_empty sort h q p n ne here i
    push_sorted-insert ((z, u) ∷ bs) i fresh small (inl e) = elim (snoc-cases ((z, u) ∷ bs)) [
      | inl k ↦ cc
      | inr (ds, y, w, k) ↦
          subst (λ l. Yields (push_sorted sort q p h) (λ q' g. IsQueue g q' l × SameOutside l h g))
            (sym (
              find_none h null null p n.item ((z, u) ∷ bs) i.chain e
              ∙ ap (λ l. l ++ ((p, n.item) ∷ [])) k))
            (push_sorted_tail sort h q p n ne here ds y w (subst (IsQueue h q) k i)
              (ap (has p) (sym k) ∙ fresh) (omega (arith, small, ap length k))
              (ap (find sort n.item) (sym k) ∙ e))
    ]
    push_sorted-insert ((z, u) ∷ bs) i fresh small (inr e) =
        let before = find_first z u n.item bs i.chain.0 i.distinct.0 e in
        rw before (push_sorted_head sort h q p n ne here z u bs i fresh small before)

module _ {T : Type 0} (sort : T → T → Bool) {q : AllocQueue T} {cs : Cells T} (i : Holds q cs) where
  -- With room, and where the object belongs at an end, `push_in_order` puts it there.
  pub push_in_order-Holds :
      (v : T)
      → length cs < capacity q
      → AtEnd sort v cs
      → Gives (push_in_order sort v q) (λ p q'.
        (p ≢ null)
        × (has p cs ≡ false)
        × Holds q' (insert sort p v cs)
        × (capacity q' ≡ capacity q))
  unfolding push_in_order
  push_in_order-Holds v room end =
      let ((p, pl), ns, run, (ne, le, fresh, pooled, len)) =
        Yields-run (alloc q.pool q.nodes) _ (alloc-IsPool i.pooled room) in
      let (n, at) = i.ready p ne le in
      let m : Node T = record n { item = v } in
      let h = write q.heap p m in
      let linked : IsQueue h q.list cs =
        IsQueue-frame (λ a o. unchanged q.heap p m a (ne_of_has a p cs o fresh).1) i.linked in
      let (l, g, run', (g_q, g_same)) = Yields-run (push_sorted sort q.list p h) _ (
        push_sorted-insert sort h q.list p m ne (changed q.heap p m) cs linked fresh
          (omega (arith, room, i.pooled.small)) end) in
      let old : (p == null) ≡ false = ground arith in
      rw (run, old, set_item-ok q.heap p n v ne at, run')
        (
          ne,
          fresh,
          record {
            linked = g_q;
            pooled =
                subst⁻¹ (λ (u, k). IsPool ns pl u k)
                  (ap₂ (λ u k. (u, k)) (fun_ext (λ a. has-insert sort a p v cs))
                    (length-insert sort p v cs))
                  pooled;
            ready = λ a a_ne a_le.
                let (k, k_at) = i.ready a a_ne (omega (arith, a_le, len)) in
                let (k', k_at') = write-ready q.heap p m a k k_at in
                still_ready (insert sort p v cs) a k' g_q g_same k_at';
          },
          len,
        )
