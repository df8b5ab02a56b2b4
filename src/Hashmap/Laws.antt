-- ===== src/Hashmap/Laws.antt =====
-- The hash map as a map: what `add`, the write through its pointer, and `remove` do to lookups.
use launch_core.Prelude.{
  ℕ, ◌+◌, ◌≤◌, ◌<◌, ◌≡◌, ◌≢◌, ◌⊎◌, get_elem?-some, refl, sym, ap, ◌∙◌, true, false, Option, none,
  some, arith, if◌then◌else◌, ◌==◌, get_elem?, get_or, set, length, length-set, get_elem?-set,
  get_or-set, Bool-cases, Option-cases, inl, inr,
}
use launch_core.Hashmap.{
  Key, Entry, Hashmap, index, find_key, find_unused, get, add, set_key, set_value, value_at, lookup,
}
use launch_core.Hashmap.Slots.{
  IsValid, holds, index-le, find_key-some, find_key-none, find_key_congr, find_key_first,
  find_key_before, find_unused-some, find_unused-none,
}

pub beq_ne : {K : Type 0} ⦃key : Key K⦄ (a b : K) → a ≢ b → key.beq a b ≡ false
beq_ne ⦃key⦄ a b ne = elim (Bool-cases (key.beq a b)) [
  | inl e ↦ absurd (ne ((key.beq_iff a b).0 e))
  | inr e ↦ e
]

module _ {K V : Type 0} ⦃key : Key K⦄ (m : Hashmap K V) (k : K) where
  pub lookup-some : (i : ℕ) → get m k ≡ some i → lookup m k ≡ value_at m i
  unfolding lookup
  lookup-some i e = rw (e, lookup)

  pub lookup-none : get m k ≡ none → lookup m k ≡ none
  unfolding lookup
  lookup-none e = rw (e, lookup)

true-false : true ≢ false
true-false e = cc

ne_test : (j l : ℕ) → l < j → (j == l) ≡ false
ne_test j l h = ground arith

module _ {K V : Type 0} ⦃key : Key K⦄ (m : Hashmap K V) (v : IsValid m) (k : K) where
  -- The map after `add` put the key in slot `j` and the caller wrote `x` there.
  abbrev filled : ℕ → Entry K V → V → Hashmap K V
  filled j e x = record m {
    entries = set (set m.entries j (record e { key = k })) j (record { key = k; val = x });
    used = set m.used j true;
  }

  -- The map between the two.
  abbrev keyed : ℕ → Entry K V → Hashmap K V
  keyed j e = record m {
    entries = set m.entries j (record e { key = k });
    used = set m.used j true;
  }

  add-free :
      (j : ℕ) (e : Entry K V)
      → find_unused m m.bucket_size (index m k) ≡ some j
      → get_elem? m.entries j ≡ some e
      → add m k ≡ (some j, keyed j e)
  unfolding add set_key
  add-free j e found at = rw (found, add, at, set_key)

  set_value-keyed :
      (j : ℕ) (e : Entry K V) (x : V)
      → j < length m.entries
      → set_value (keyed j e) j x ≡ filled j e x
  unfolding set_value
  set_value-keyed j e x p =
      let again : get_elem? (set m.entries j (record e { key = k })) j
          ≡ some (record e { key = k }) =
        get_elem?-set m.entries j j (record e { key = k }) p ∙ ground arith in
      rw (again, set_value)

  add-full : find_unused m m.bucket_size (index m k) ≡ none → add m k ≡ (none, m)
  unfolding add
  add-full full = rw (full, add)

  -- `add` finds the bucket full, or it takes an unused slot of it.
  add_cases :
      ((add m k ≡ (none, m))
        × ((l : ℕ) → index m k ≤ l → l < index m k + m.bucket_size → get_or m.used l false ≡ true))
      ⊎ ((j : ℕ) × (e : Entry K V) × (index m k ≤ j)
          × (j < index m k + m.bucket_size)
          × (get_or m.used j false ≡ false)
          × (add m k ≡ (some j, keyed j e)))
  add_cases = elim (Option-cases (find_unused m m.bucket_size (index m k))) [
    | inl full ↦
        inl (add-full full, λ l p q. find_unused-none m m.bucket_size (index m k) l full p q)
    | inr (j, found) ↦
        let (p, q, free) = find_unused-some m m.bucket_size (index m k) j found in
        let (e, at) =
          get_elem?-some m.entries j (omega (arith, v.entries, index-le m k v.buckets)) in
        inr (j, e, p, q, free, add-free j e found at)
  ]

  -- The slots after that: slot `j` holds `k` and nothing else changed.
  holds-filled :
      (j : ℕ) (e : Entry K V) (x : V) (l : ℕ) (k' : K)
      → j < length m.entries
      → j < length m.used
      → holds (filled j e x) l k' ≡ (if j == l then key.beq k k' else holds m l k')
  holds-filled j e x l k' p q = ground (
    arith,
    get_or-set m.used j l true false,
    get_elem?-set m.entries j l (record e { key = k }),
    get_elem?-set (set m.entries j (record e { key = k })) j l (record { key = k; val = x }),
    length-set m.entries j (record e { key = k }),
  )

  value_at-filled :
      (j : ℕ) (e : Entry K V) (x : V) (l : ℕ)
      → j < length m.entries
      → value_at (filled j e x) l ≡ (if j == l then some x else value_at m l)
  unfolding value_at
  value_at-filled j e x l p = ground (
    arith,
    get_elem?-set m.entries j l (record e { key = k }),
    get_elem?-set (set m.entries j (record e { key = k })) j l (record { key = k; val = x }),
    length-set m.entries j (record e { key = k }),
  )

  -- Slot `j` held nothing, and holds nothing for another key.
  other_key :
      (j l : ℕ) (k' : K)
      → get_or m.used j false ≡ false
      → k' ≢ k
      → (if j == l then key.beq k k' else holds m l k') ≡ holds m l k'
  other_key j l k' free ne =
      let diff : key.beq k k' ≡ false = beq_ne k k' (λ e. ne (sym e)) in ground (arith, diff, free)

  used_ne :
      (j i : ℕ) → get_or m.used i false ≡ true → get_or m.used j false ≡ false → (j == i) ≡ false
  used_ne j i b c = ground (arith, b, c)

  -- The key is found in its slot, where no slot held it before.
  lookup-filled_self :
      (j : ℕ) (e : Entry K V) (x : V)
      → index m k ≤ j
      → j < index m k + m.bucket_size
      → get m k ≡ none
      → lookup (filled j e x) k ≡ some x
  unfolding get index
  lookup-filled_self j e x p q new =
      let inside = index-le m k v.buckets in
      let a : j < length m.entries = omega (arith, v.entries) in
      let b : j < length m.used = omega (arith, v.used) in
      let yes_j : (j == j) ≡ true = ground arith in
      let beq_self : key.beq k k ≡ true = (key.beq_iff k k).1 refl in
      let found : find_key (filled j e x) k m.bucket_size (index m k) ≡ some j =
        find_key_first (filled j e x) k m.bucket_size (index m k) j p q
          (rw (holds-filled j e x j k a b, yes_j) beq_self)
          (λ l s t.
            rw (holds-filled j e x l k a b, ne_test j l t)
              (find_key-none m k m.bucket_size (index m k) l new s (omega arith))) in
      lookup-some (filled j e x) k j found ∙ value_at-filled j e x j a ∙ rw yes_j

  -- A slot before the old one is found at once.
  get-filled_before :
      (i j : ℕ) (e : Entry K V) (x : V)
      → index m k ≤ j
      → j < index m k + m.bucket_size
      → get m k ≡ some i
      → j < i
      → get (filled j e x) k ≡ some j
  unfolding get index
  get-filled_before i j e x p q old before =
      let inside = index-le m k v.buckets in
      let a : j < length m.entries = omega (arith, v.entries) in
      let b : j < length m.used = omega (arith, v.used) in
      let yes_j : (j == j) ≡ true = ground arith in
      let beq_self : key.beq k k ≡ true = (key.beq_iff k k).1 refl in
      find_key_first (filled j e x) k m.bucket_size (index m k) j p q
        (rw (holds-filled j e x j k a b, yes_j) beq_self)
        (λ l s t.
          rw (holds-filled j e x l k a b, ne_test j l t)
            (find_key_before m k m.bucket_size (index m k) i l old s (omega arith)))

  get-filled_ne :
      (j : ℕ) (e : Entry K V) (x : V) (k' : K)
      → j < length m.entries
      → j < length m.used
      → get_or m.used j false ≡ false
      → k' ≢ k
      → get (filled j e x) k' ≡ get m k'
  unfolding get index
  get-filled_ne j e x k' a b free ne =
      find_key_congr m (filled j e x) k' m.bucket_size (index m k')
        (λ l. holds-filled j e x l k' a b ∙ other_key j l k' free ne)

  get_used : (k' : K) (i : ℕ) → get m k' ≡ some i → get_or m.used i false ≡ true
  unfolding get
  get_used k' i e = ground (arith, find_key-some m k' m.bucket_size (index m k') i e)

  -- A lookup of another key goes by what it went by before.
  lookup-filled_ne :
      (j : ℕ) (e : Entry K V) (x : V) (k' : K)
      → j < length m.entries
      → j < length m.used
      → get_or m.used j false ≡ false
      → k' ≢ k
      → lookup (filled j e x) k' ≡ lookup m k'
  lookup-filled_ne j e x k' a b free ne = elim (Option-cases (get m k')) [
    | inl e0 ↦
        lookup-none (filled j e x) k' (get-filled_ne j e x k' a b free ne ∙ e0)
        ∙ sym (lookup-none m k' e0)
    | inr (i, ei) ↦
        lookup-some (filled j e x) k' i (get-filled_ne j e x k' a b free ne ∙ ei)
        ∙ value_at-filled j e x i a
        ∙ rw (used_ne j i (get_used k' i ei) free) (sym (lookup-some m k' i ei))
  ]

module _ {K V : Type 0} ⦃key : Key K⦄ (m : Hashmap K V) (v : IsValid m) (k : K) (x : V) where
  -- Adding a key that is not there.
  abbrev pub AddSpec : Option ℕ × Hashmap K V → Type 0
  AddSpec (none, m') =
      (m' ≡ m)
      × ((l : ℕ) → index m k ≤ l → l < index m k + m.bucket_size → get_or m.used l false ≡ true)
  AddSpec (some j, m') =
      (lookup (set_value m' j x) k ≡ some x)
      × ((k' : K) → k' ≢ k → lookup (set_value m' j x) k' ≡ lookup m k')

  -- After `add` of a key that is not in the map, and the write of its value, a lookup of the key
  -- finds the value and a lookup of any other key finds what it found before; `add` fails, and
  -- changes nothing, only where every slot of the key's bucket is in use.
  pub lookup-add : get m k ≡ none → AddSpec (add m k)
  lookup-add new = elim (add_cases m v k) [
    | inl (e, full) ↦ rw e (refl, full)
    | inr (j, e, p, q, free, taken) ↦
        let inside = index-le m k v.buckets in
        let a : j < length m.entries = omega (arith, v.entries) in
        let b : j < length m.used = omega (arith, v.used) in
        rw (taken, set_value-keyed m v k j e x a)
          (
            lookup-filled_self m v k j e x p q new,
            λ k' ne. lookup-filled_ne m v k j e x k' a b free ne,
          )
  ]

  -- What `add` of a key does that is in slot `i` already.
  abbrev pub AgainSpec : ℕ → Option ℕ × Hashmap K V → Type 0
  AgainSpec i (none, m') = m' ≡ m
  AgainSpec i (some j, m') = (j ≢ i) × (j < i → get (set_value m' j x) k ≡ some j)

  -- A key is added again: `add` takes another slot, and if that is before the old one, then `get`
  -- returns the new slot at once, and no longer the slot that was filled first.
  pub get-add_again : (i : ℕ) → get m k ≡ some i → AgainSpec i (add m k)
  get-add_again i old = elim (add_cases m v k) [
    | inl (e, full) ↦ rw e refl
    | inr (j, e, p, q, free, taken) ↦
        let inside = index-le m k v.buckets in
        let a : j < length m.entries = omega (arith, v.entries) in
        let used_i = get_used m v k k i old in
        rw (taken, set_value-keyed m v k j e x a)
          (
            λ same. true-false (sym used_i ∙ ap (λ t. get_or m.used t false) (sym same) ∙ free),
            λ before. get-filled_before m v k i j e x p q old before,
          )
  ]
