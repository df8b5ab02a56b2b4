-- ===== src/Pool/Free.antt =====
-- Pool: allocation and release.
use mathlib.Core.Path.{subst}
use launch_core.Prelude.{
  ℕ, suc, ◌-◌, ◌≤◌, ◌<◌, ◌≡◌, ◌≢◌, inl, inr, ◌∙◌, refl, sym, ap, Bool, true, false, ◌||◌, some, [],
  ◌∷◌, ◌++◌, arith, ◌==◌, if◌then◌else◌, length, length-append, length-set, get_elem?,
  get_elem?-set, set,
}
use launch_core.Queue.Heap.{Ptr, null, Node, node, Heap, write}
use launch_core.Queue.Chain.{
  Cells, has, first, last, load-ok, has_last_snoc, snoc-cases, Distinct-around, has_snoc, ne_of_has,
}
use launch_core.Queue.Simple.{pop_node, push_node}
use launch_core.Queue.Fifo.{IsQueue, Yields, push_node-IsQueue}
use launch_core.Queue.Remove.{pop_node-IsQueue}
use launch_core.Pool.{descriptor, container, mark, Pool, alloc, free}
use launch_core.Pool.State.{
  Yields-run, IsQueue-frame, IsQueue-last, pop_node-empty, set_item-ok, holds, Once, holds_snoc,
  Once-init, IsPool,
}

contrary : {a b : Bool} → (a ≡ true → b ≡ false) → b ≡ true → a ≡ false
contrary {a = true} h e = cc (h refl)
contrary {a = false} h e = refl

if_or : (b c : Bool) → (if b then true else c) ≡ (b || c)
if_or true c = refl
if_or false c = refl

module _ {h : Heap Ptr} {p : Pool} {used : Ptr → Bool} {n : ℕ} (i : IsPool h p used n) where
  container-ok :
      (d : Ptr)
      → d ≢ null
      → d ≤ length p.descs
      → container p.descs d ≡ some (descriptor p.self (used d))
  unfolding container
  container-ok d ne le = ground (arith, i.described d ne le)

  mark-ok :
      (b : Bool) (d : Ptr)
      → d ≢ null
      → d ≤ length p.descs
      → mark b d p.descs ≡ set p.descs (d - 1) (descriptor p.self b)
  mark-ok b d ne le = rw (container-ok d ne le, mark)

  -- The descriptors after one of them is marked.
  marked :
      (b : Bool) (d e : Ptr)
      → d ≢ null
      → d ≤ length p.descs
      → e ≢ null
      → e ≤ length p.descs
      → get_elem? (mark b d p.descs) (e - 1)
        ≡ some (descriptor p.self (if e == d then b else used e))
  marked b d e dn dl en el =
      rw
        (
          mark-ok b d dn dl,
          get_elem?-set p.descs (d - 1) (e - 1) (descriptor p.self b) (omega arith),
        )
        (ground (arith, i.described e en el))

  length-mark :
      (b : Bool) (d : Ptr)
      → d ≢ null
      → d ≤ length p.descs
      → length (mark b d p.descs) ≡ length p.descs
  length-mark b d ne le = rw (mark-ok b d ne le) (length-set p.descs (d - 1) (descriptor p.self b))

  alloc_from :
      (ds : Cells Ptr) (x d : Ptr)
      → i.unused ≡ ds ++ ((x, d) ∷ [])
      → Yields (alloc p h) (λ (d, p') g.
        (d ≢ null)
        × (d ≤ length p.descs)
        × (used d ≡ false)
        × IsPool g p' (λ a. (a == d) || used a) (suc n)
        × (length p'.descs ≡ length p.descs))
  unfolding alloc
  alloc_from ds x d e =
      let unused : Cells Ptr = ds ++ ((x, d) ∷ []) in
      let iq : IsQueue h p.free_desc unused = subst (IsQueue h p.free_desc) e i.desc_queue in
      let (x_ok, at) = IsQueue-last ds x d iq in
      let (x_out, _) = Distinct-around ds x d [] iq.distinct in
      let x_in = has_last_snoc ds x d in
      let held : holds d i.unused ≡ true = rw (e, holds_snoc) (ground arith) in
      let (d_free, d_ok, d_le) = i.offered d held in
      let size = length-append ds ((x, d) ∷ []) in
      let sum = i.total in
      let e_len = ap length e in
      let fresh : has x i.spare ≡ false = i.apart x (rw e x_in) in
      let ((r, fd), g, run, (r_x, fd_q, g_same)) =
        Yields-run (pop_node p.free_desc h) _ (pop_node-IsQueue h p.free_desc ds x d iq) in
      let g_x = g_same x x_out ∙ at in
      let within : (a : Ptr) → has a i.unused ≡ (has a ds || (a == x)) =
        λ a. ap (has a) e ∙ has_snoc a ds x d in
      let out_of : (a : Ptr) → has a i.spare ≡ true → has a ds ≡ false =
        λ a o. ground (arith, within a, i.apart a) in
      let away : (a : Ptr) → has a ds ≡ true → has a ((x, d) ∷ i.spare) ≡ false =
        λ a o. ground (arith, within a, i.apart a, (ne_of_has a x ds o x_out).1) in
      let holds_ds : (a : Ptr) → holds a i.unused ≡ (holds a ds || (a == d)) =
        λ a. ap (holds a) e ∙ holds_snoc a ds x d in
      let len = length-mark true d d_ok d_le in
      let spare_q : IsQueue g p.free_nodes i.spare =
        IsQueue-frame (λ a o. g_same a (out_of a o)) i.node_queue in
      let (fn, k, run', (fn_q, k_same)) = Yields-run (push_node p.free_nodes x g) _ (
        push_node-IsQueue g p.free_nodes i.spare x (node (last null ds) null d) spare_q x_ok g_x
          fresh (omega (arith, i.spares, i.total, i.small))) in
      let x_at = fn_q.chain in
      let old : (x == null) ≡ false = ground arith in
      let (o_once, o_d) = Once-init ds x d (subst Once e i.once) in
      rw (run, r_x, old, run', load-ok k x (node null (first null i.spare) d) x_ok x_at.1)
        (
          d_ok,
          d_le,
          d_free,
          record {
            unused = ds;
            spare = (x, d) ∷ i.spare;
            desc_queue = IsQueue-frame (λ a o. k_same a (away a o)) fd_q;
            node_queue = fn_q;
            apart = away;
            spares = ap suc i.spares;
            total = omega (arith, len);
            small = omega (arith, i.small, len);
            once = o_once;
            offered = λ a o. ground (arith, o_d, i.offered a, holds_ds a);
            taken = λ a o. ground (arith, i.taken a);
            described = λ a ne le.
                marked true d a d_ok d_le ne (omega (arith, le, len))
                ∙ ap (λ t. some (descriptor p.self t)) (if_or (a == d) (used a));
          },
          len,
        )

  -- With a free object left, `alloc` yields one that was free.
  pub alloc-IsPool :
      n < length p.descs
      → Yields (alloc p h) (λ (d, p') g.
        (d ≢ null)
        × (d ≤ length p.descs)
        × (used d ≡ false)
        × IsPool g p' (λ a. (a == d) || used a) (suc n)
        × (length p'.descs ≡ length p.descs))
  alloc-IsPool room = elim (snoc-cases i.unused) [
    | inl e ↦ absurd (omega (arith, i.total, ap length e))
    | inr (ds, x, d, e) ↦ alloc_from ds x d e
  ]

  -- With every object allocated, it yields NULL and changes nothing.
  pub alloc_none : n ≡ length p.descs → alloc p h ≡ some ((null, p), h)
  unfolding alloc
  alloc_none full = elim (snoc-cases i.unused) [
    | inl e ↦ rw (pop_node-empty h p.free_desc (subst (IsQueue h p.free_desc) e i.desc_queue))
    | inr (ds, x, d, e) ↦
        absurd (omega (arith, i.total, ap length e, length-append ds ((x, d) ∷ [])))
  ]

  free_to :
      (cs : Cells Ptr) (x w d : Ptr) (m : ℕ) (left : Ptr → Bool)
      → i.spare ≡ cs ++ ((x, w) ∷ [])
      → used d ≡ true
      → n ≡ suc m
      → ((a : Ptr) → left a ≡ (if a == d then false else used a))
      → Yields
          (free p d h)
          (λ (ok, p') g. (ok ≡ true) × IsPool g p' left m × (length p'.descs ≡ length p.descs))
  unfolding free write
  free_to cs x w d m left e held count rest =
      let spare : Cells Ptr = cs ++ ((x, w) ∷ []) in
      let iq : IsQueue h p.free_nodes spare = subst (IsQueue h p.free_nodes) e i.node_queue in
      let (x_ok, at) = IsQueue-last cs x w iq in
      let (x_out, _) = Distinct-around cs x w [] iq.distinct in
      let (d_ok, d_le) = i.taken d held in
      let d_new : holds d i.unused ≡ false = ground (arith, i.offered d) in
      let within : (a : Ptr) → has a i.spare ≡ (has a cs || (a == x)) =
        λ a. ap (has a) e ∙ has_snoc a cs x w in
      let out_of : (a : Ptr) → has a cs ≡ true → has a i.unused ≡ false =
        λ a o. contrary (i.apart a) (within a ∙ ap (λ b. b || (a == x)) o) in
      let x_new : has x i.unused ≡ false = ground (arith, within x, i.apart x) in
      let size = ap length e in
      let size' = length-append cs ((x, w) ∷ []) in
      let len = length-mark false d d_ok d_le in
      let ((r, fn), g, run, (r_x, fn_q, g_same)) =
        Yields-run (pop_node p.free_nodes h) _ (pop_node-IsQueue h p.free_nodes cs x w iq) in
      let g_x : g x ≡ some (node (last null cs) null w) = g_same x x_out ∙ at in
      let x_n : Node Ptr = node (last null cs) null d in
      let k = write g x x_n in
      let k_x : k x ≡ some x_n = ground arith in
      let k_same : (a : Ptr) → (a == x) ≡ false → k a ≡ g a = λ a o. rw o in
      let away : (a : Ptr) → has a cs ≡ true → (a == x) ≡ false =
        λ a o. (ne_of_has a x cs o x_out).1 in
      let desc_q : IsQueue k p.free_desc i.unused =
        IsQueue-frame
          (λ a o.
            k_same a (ne_of_has a x i.unused o x_new).1
            ∙ g_same a (ground (arith, within a, i.apart a)))
          i.desc_queue in
      let (fd, l, run', (fd_q, l_same)) = Yields-run (push_node p.free_desc x k) _ (
        push_node-IsQueue k p.free_desc i.unused x x_n desc_q x_ok k_x x_new
          (omega (arith, i.total, i.small))) in
      let old : (x == null) ≡ false = ground arith in
      let self : (p.self == p.self) ≡ true = ground arith in
      rw (container-ok d d_ok d_le, free)
        (rw
          (held, self, run, r_x, old, set_item-ok g x (node (last null cs) null w) d x_ok g_x, run')
          (
            refl,
            record {
              unused = (x, d) ∷ i.unused;
              spare = cs;
              desc_queue = fd_q;
              node_queue =
                  IsQueue-frame (λ a o. l_same a (rw (away a o) (out_of a o)) ∙ k_same a (away a o))
                    fn_q;
              apart = λ a o. contrary (λ c. rw (away a c) (out_of a c)) o;
              spares = omega (arith, i.spares);
              total = omega (arith, i.total, len);
              small = omega (arith, i.small, len);
              once = (d_new, i.once);
              offered = λ a o. ground (arith, i.offered a, rest a);
              taken = λ a o. ground (arith, i.taken a, rest a);
              described = λ a ne le.
                  marked false d a d_ok d_le ne (omega (arith, le, len))
                  ∙ ap (λ t. some (descriptor p.self t)) (sym (rest a));
            },
            len,
          ))

  -- An object that is allocated is given back: `free` succeeds, and just that object is free again.
  pub free-IsPool :
      (d : Ptr) (m : ℕ) (left : Ptr → Bool)
      → used d ≡ true
      → n ≡ suc m
      → ((a : Ptr) → left a ≡ (if a == d then false else used a))
      → Yields
          (free p d h)
          (λ (ok, p') g. (ok ≡ true) × IsPool g p' left m × (length p'.descs ≡ length p.descs))
  free-IsPool d m left held count rest = elim (snoc-cases i.spare) [
    | inl e ↦ absurd (omega (arith, i.spares, ap length e))
    | inr (cs, x, w, e) ↦ free_to cs x w d m left e held count rest
  ]

  -- What is not allocated is not freed: nothing changes.
  pub free_twice :
      (d : Ptr) → d ≢ null → d ≤ length p.descs → used d ≡ false → free p d h ≡ some ((false, p), h)
  unfolding free
  free_twice d ne le out = rw (container-ok d ne le, free) (rw out)
