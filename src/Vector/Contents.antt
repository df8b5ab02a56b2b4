-- ===== src/Vector/Contents.antt =====
-- `insert` and `remove` on the vector as a list.
use native.Mathlib.Numerals.{unary_clauses}
use launch_core.Prelude.{
  ℕ, suc, ◌+◌, ◌-◌, ◌≤◌, ◌<◌, ◌≡◌, refl, ap, ◌∙◌, Option, none, some, ltb, leb, ◌==◌, Bool-cases,
  ltb→lt, leb→le, ==_iff, inl, inr, get_or, take, length-set, success, error, add_size, sub_size,
  size_mod, arith, ◌⊎◌,
}
use launch_core.Vector.{Vector, write, lshift_loop, rshift_loop, lshift, rshift, insert, remove}
use launch_core.Vector.Shifts.{
  IsValid, contents, insert_at, remove_at, rshift-insert_at, lshift-remove_at, length-rshift_loop,
  length-lshift_loop,
}

no_wrap : (a : ℕ) → a + 1 < size_mod → add_size a 1 ≡ suc a
no_wrap a h = omega arith

no_borrow : (a : ℕ) → 0 < a → a < size_mod → sub_size a 1 ≡ a - 1
no_borrow a p h = omega arith

module _ {A : Type 0} (junk : A) where
  rshift-elements :
      (v : Vector A) (index : ℕ)
      → IsValid v
      → v.len < v.capacity
      → rshift junk v index ≡ record v {
        len = suc v.len;
        elements =
            rshift_loop junk (v.len - index) (suc index) (get_or v.elements index junk) v.elements;
      }
  unfolding rshift
  rshift-elements v index valid room =
      let count : add_size v.len 1 ≡ suc v.len = no_wrap v.len (omega (arith, valid.bound)) in
      rw count (simp unary_clauses refl)

  rshift-IsValid :
      (v : Vector A) (valid : IsValid v) (index : ℕ) (x : A)
      → v.len < v.capacity
      → IsValid (write (rshift junk v index) index x)
  rshift-IsValid v valid index x room = rw (rshift-elements v index valid room) record {
    array =
        length-set
          (rshift_loop junk (v.len - index) (suc index) (get_or v.elements index junk) v.elements)
          index x
        ∙ length-rshift_loop junk (v.len - index) (suc index) (get_or v.elements index junk)
            v.elements
        ∙ valid.array;
    within = room;
    bound = valid.bound;
  }

  rshift-contents :
      (v : Vector A) (valid : IsValid v) (index : ℕ) (x : A)
      → index ≤ v.len
      → v.len < v.capacity
      → contents (write (rshift junk v index) index x) ≡ insert_at index x (contents v)
  rshift-contents v valid index x inside room =
      rw (rshift-elements v index valid room)
        (rshift-insert_at junk x v.len index v.elements inside (omega (arith, valid.array)))

  lshift-elements :
      (v : Vector A) (index : ℕ)
      → IsValid v
      → index < v.len
      → lshift junk v index ≡ record v {
        len = v.len - 1;
        elements = lshift_loop junk (v.len - 1 - index) index v.elements;
      }
  unfolding lshift
  lshift-elements v index valid inside =
      let count : sub_size v.len 1 ≡ v.len - 1 =
        no_borrow v.len (omega arith) (omega (arith, valid.bound, valid.within)) in
      rw count refl

  lshift-IsValid :
      (v : Vector A) (valid : IsValid v) (index : ℕ) → index < v.len → IsValid (lshift junk v index)
  lshift-IsValid v valid index inside = rw (lshift-elements v index valid inside) record {
    array = length-lshift_loop junk (v.len - 1 - index) index v.elements ∙ valid.array;
    within = omega (arith, valid.within);
    bound = valid.bound;
  }

  lshift-contents :
      (v : Vector A) (valid : IsValid v) (index : ℕ)
      → index < v.len
      → contents (lshift junk v index) ≡ remove_at index (contents v)
  lshift-contents v valid index inside =
      let whole : suc (v.len - 1) ≡ v.len = omega arith in
      rw (lshift-elements v index valid inside) (
        lshift-remove_at junk (v.len - 1) index v.elements (omega arith)
          (omega (arith, valid.array, valid.within))
        ∙ ap (λ t. remove_at index (take t v.elements)) whole)

  -- What `insert` promises of its result, with `x` what the caller writes into the new element.
  abbrev pub InsertSpec : Vector A → ℕ → A → Option ℕ × Vector A → Type 0
  InsertSpec v index x (none, v') = (v' ≡ v) × ((v.len < index) ⊎ (v.len ≡ v.capacity))
  InsertSpec v index x (some i, v') =
      (i ≡ index)
      × IsValid (write v' i x)
      × (contents (write v' i x) ≡ insert_at index x (contents v))

  -- `insert` fails, and changes nothing, only behind the end or when the vector is full; otherwise
  -- the vector with the element written is well-formed and holds the new element at the index, and
  -- the others in their order.
  pub insert-insert_at :
      (v : Vector A) → IsValid v → (index : ℕ) (x : A) → InsertSpec v index x (insert junk v index)
  unfolding insert
  insert-insert_at v valid index x = elim (Bool-cases (ltb v.len index)) [
    | inl b ↦ rw b (refl, inl (ltb→lt v.len index b))
    | inr b ↦ elim (Bool-cases (v.len == v.capacity)) [
      | inl c ↦ rw (b, c) (refl, inr ((==_iff v.len v.capacity).0 c))
      | inr c ↦
          let inside : index ≤ v.len = ground (arith, b) in
          let room : v.len < v.capacity = ground (arith, c, valid.within) in
          rw (b, c)
            (refl, rshift-IsValid v valid index x room, rshift-contents v valid index x inside room)
    ]
  ]

  -- `remove` fails, and changes nothing, only behind the last element; otherwise the vector is
  -- well-formed and holds the other elements in their order.
  pub remove-remove_at :
      (v : Vector A)
      → IsValid v
      → (index : ℕ)
      → ((v.len ≤ index) × (remove junk v index ≡ (error, v)))
        ⊎ ((index < v.len)
            × ((remove junk v index).0 ≡ success)
            × IsValid (remove junk v index).1
            × (contents (remove junk v index).1 ≡ remove_at index (contents v)))
  unfolding remove
  remove-remove_at v valid index = elim (Bool-cases (leb v.len index)) [
    | inl b ↦ rw b (inl (leb→le v.len index b, refl))
    | inr b ↦
        let inside : index < v.len = ground (arith, b) in
        rw b (
          inr (
            inside,
            refl,
            lshift-IsValid v valid index inside,
            lshift-contents v valid index inside,
          ))
  ]
