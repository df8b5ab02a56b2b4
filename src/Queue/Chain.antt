-- ===== src/Queue/Chain.antt =====
-- Doubly linked chains of nodes, and what writes to nodes do to them.
use launch_core.Prelude.{
  ◌≡◌, ◌≢◌, ◌⊎◌, inl, inr, ap, refl, Bool, true, false, ◌||◌, some, List, [], ◌∷◌, ◌++◌, arith,
  ◌==◌,
}
use launch_core.Queue.Heap.{Ptr, null, Node, node, Heap, write, load, set_prev, set_next}

-- address and item of each node, from the head to the tail
abbrev pub Cells : Type 0 → Type 0
Cells T = List (Ptr × T)

module _ {T : Type 0} where
  abbrev pub has : Ptr → Cells T → Bool
  has a [] = false
  has a ((p, _) ∷ cs) = (a == p) || has a cs

  abbrev pub Distinct : Cells T → Type 0
  Distinct [] = Unit {0}
  Distinct ((p, _) ∷ cs) = (has p cs ≡ false) × Distinct cs

  -- the first address of a chain that ends in `n`, and the last of one that begins behind `p`
  abbrev pub first : Ptr → Cells T → Ptr
  first n [] = n
  first n ((p, _) ∷ cs) = p

  abbrev pub last : Ptr → Cells T → Ptr
  last p [] = p
  last p ((q, _) ∷ cs) = last q cs

  -- Between `p` and `n` the nodes of `cs` are linked both ways.
  abbrev pub Seg : Heap T → Ptr → Cells T → Ptr → Type 0
  Seg h p [] n = Unit {0}
  Seg h p ((q, v) ∷ cs) n = (q ≢ null) × (h q ≡ some (node p (first n cs) v)) × Seg h q cs n

  pub Seg-frame :
      {g h : Heap T} (p n : Ptr) (cs : Cells T)
      → ((a : Ptr) → has a cs ≡ true → g a ≡ h a)
      → Seg h p cs n
      → Seg g p cs n
  Seg-frame p n [] same s = tt
  Seg-frame p n ((q, v) ∷ cs) same s =
      (s.0, ground (arith, same q), Seg-frame q n cs (λ a i. same a (ground arith)) s.2)

  pub first-append : (n : Ptr) (cs ds : Cells T) → first n (cs ++ ds) ≡ first (first n ds) cs
  first-append n [] ds = refl
  first-append n (c ∷ cs) ds = refl

  pub last-append : (p : Ptr) (cs ds : Cells T) → last p (cs ++ ds) ≡ last (last p cs) ds
  last-append p [] ds = refl
  last-append p ((q, v) ∷ cs) ds = last-append q cs ds

  pub Seg-split :
      (h : Heap T) (p n : Ptr) (cs ds : Cells T)
      → Seg h p (cs ++ ds) n
      → Seg h p cs (first n ds) × Seg h (last p cs) ds n
  Seg-split h p n [] ds s = (tt, s)
  Seg-split h p n ((q, v) ∷ cs) ds s =
      let (l, r) = Seg-split h q n cs ds s.2 in ((s.0, rw first-append at s.1, l), r)

  pub Seg-join :
      (h : Heap T) (p n : Ptr) (cs ds : Cells T)
      → Seg h p cs (first n ds)
      → Seg h (last p cs) ds n
      → Seg h p (cs ++ ds) n
  Seg-join h p n [] ds l r = r
  Seg-join h p n ((q, v) ∷ cs) ds l r = (l.0, rw first-append l.1, Seg-join h q n cs ds l.2 r)

  pub has-append : (a : Ptr) (cs ds : Cells T) → has a (cs ++ ds) ≡ (has a cs || has a ds)
  has-append a [] ds = refl
  has-append a ((p, v) ∷ cs) ds = ground (arith, has-append a cs ds)

  -- Two chains of distinct nodes that have no node in common.
  pub Distinct-split :
      (cs ds : Cells T)
      → Distinct (cs ++ ds)
      → Distinct cs × Distinct ds × ((a : Ptr) → has a cs ≡ true → has a ds ≡ false)
  Distinct-split [] ds d = (tt, d, λ a i. cc)
  Distinct-split ((p, v) ∷ cs) ds d =
      let (l, r, apart) = Distinct-split cs ds d.1 in
      (
        (ground (arith, d.0, has-append p cs ds), l),
        r,
        λ a i. ground (arith, d.0, has-append p cs ds, apart a),
      )

  pub Distinct-join :
      (cs ds : Cells T)
      → Distinct cs
      → Distinct ds
      → ((a : Ptr) → has a cs ≡ true → has a ds ≡ false)
      → Distinct (cs ++ ds)
  Distinct-join [] ds l r apart = r
  Distinct-join ((p, v) ∷ cs) ds l r apart = (
    ground (arith, l.0, has-append p cs ds, apart p),
    Distinct-join cs ds l.1 r (λ a i. apart a (ground arith)),
  )

  -- The node behind which a chain of at least one node ends.
  pub has-last : (p : Ptr) (cs : Cells T) → cs ≢ [] → has (last p cs) cs ≡ true
  has-last p [] ne = absurd (ne refl)
  has-last p ((q, v) ∷ []) ne = ground arith
  has-last p ((q, v) ∷ (r, w) ∷ cs) ne = ground (arith, has-last q ((r, w) ∷ cs) (λ e. cc))

  -- A chain is empty, or it ends in a node.
  pub snoc-cases :
      (cs : Cells T)
      → (cs ≡ []) ⊎ ((ds : Cells T) × (y : Ptr) × (w : T) × (cs ≡ ds ++ ((y, w) ∷ [])))
  snoc-cases [] = inl refl
  snoc-cases ((p, v) ∷ cs) = elim (snoc-cases cs) [
    | inl e ↦ inr ([], p, v, ap (λ l. (p, v) ∷ l) e)
    | inr (ds, y, w, e) ↦ inr ((p, v) ∷ ds, y, w, ap (λ l. (p, v) ∷ l) e)
  ]

  pub has_snoc :
      (a : Ptr) (cs : Cells T) (y : Ptr) (w : T)
      → has a (cs ++ ((y, w) ∷ [])) ≡ (has a cs || (a == y))
  has_snoc a cs y w = ground (arith, has-append a cs ((y, w) ∷ []))

  pub last_snoc : (p : Ptr) (cs : Cells T) (y : Ptr) (w : T) → last p (cs ++ ((y, w) ∷ [])) ≡ y
  last_snoc p cs y w = last-append p cs ((y, w) ∷ [])

  pub first_snoc :
      (n m : Ptr) (cs : Cells T) (y : Ptr) (w : T)
      → first n (cs ++ ((y, w) ∷ [])) ≡ first m (cs ++ ((y, w) ∷ []))
  first_snoc n m [] y w = refl
  first_snoc n m (c ∷ cs) y w = refl

  pub has-first :
      (n : Ptr) (cs : Cells T) (y : Ptr) (w : T)
      → has (first n (cs ++ ((y, w) ∷ []))) (cs ++ ((y, w) ∷ [])) ≡ true
  has-first n [] y w = ground arith
  has-first n ((p, v) ∷ cs) y w = ground arith

  pub has-last_cons :
      (n p : Ptr) (v : T) (cs : Cells T) → has (last n ((p, v) ∷ cs)) ((p, v) ∷ cs) ≡ true
  has-last_cons n p v cs = has-last n ((p, v) ∷ cs) (λ e. cc)

  pub has_self : (p : Ptr) (v : T) (cs : Cells T) → has p ((p, v) ∷ cs) ≡ true
  has_self p v cs = ground arith

  pub has_last_snoc : (cs : Cells T) (y : Ptr) (w : T) → has y (cs ++ ((y, w) ∷ [])) ≡ true
  has_last_snoc cs y w = ground (arith, has_snoc y cs y w)

  -- A node of the chain is not one that stands outside.
  pub ne_of_has :
      (a b : Ptr) (cs : Cells T)
      → has a cs ≡ true
      → has b cs ≡ false
      → ((b == a) ≡ false) × ((a == b) ≡ false)
  ne_of_has a b cs i o = (ground (arith, i, o), ground (arith, i, o))

  -- What a chain has to do with a node behind it, and with the chain behind that.
  pub Distinct-around :
      (cs : Cells T) (p : Ptr) (v : T) (ds : Cells T)
      → Distinct (cs ++ ((p, v) ∷ ds))
      → (has p cs ≡ false) × ((a : Ptr) → has a cs ≡ true → has a ds ≡ false)
  Distinct-around cs p v ds d =
      let (_, _, apart) = Distinct-split cs ((p, v) ∷ ds) d in
      (ground (arith, apart p), λ a i. ground (arith, apart a))

  pub changed : (h : Heap T) (p : Ptr) (n : Node T) → write h p n p ≡ some n
  unfolding write
  changed h p n = ground arith

  pub unchanged :
      (h : Heap T) (p : Ptr) (n : Node T) (a : Ptr) → (a == p) ≡ false → write h p n a ≡ h a
  unfolding write
  unchanged h p n a o = rw o

  module _ (h : Heap T) (p : Ptr) (n : Node T) (ne : p ≢ null) (e : h p ≡ some n) where
    pub load-ok : load p h ≡ some (n, h)
    unfolding load
    load-ok = ground arith

    pub set_prev-ok : (q : Ptr) → set_prev p q h ≡ some (tt, write h p (record n { prev = q }))
    unfolding set_prev
    set_prev-ok q = rw load-ok

    pub set_next-ok : (q : Ptr) → set_next p q h ≡ some (tt, write h p (record n { next = q }))
    unfolding set_next
    set_next-ok q = rw load-ok
