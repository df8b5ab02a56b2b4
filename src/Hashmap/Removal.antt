-- ===== src/Hashmap/Removal.antt =====
-- `remove` of the hash map.
use mathlib.Core.Path.{subst}
use native.Mathlib.Decide.{ℕ_discrete}
use launch_core.Prelude.{
  ℕ, zero, suc, ◌+◌, ◌≡◌, ◌≢◌, refl, sym, ◌∙◌, Bool, true, false, Option, none, some, arith,
  if◌then◌else◌, ◌==◌, get_elem?, set, length, get_or-set, Bool-cases, Option-cases, inl, inr, ◌<◌,
}
use launch_core.Hashmap.{Key, Hashmap, index, find_key, get, remove, value_at, lookup}
use launch_core.Hashmap.Slots.{IsValid, holds, index-le, find_key-some, find_key_congr}
use launch_core.Hashmap.Laws.{lookup-some, lookup-none}

==-no : (i l : ℕ) → i ≢ l → (i == l) ≡ false
==-no i l d = ground arith

-- A slot holds one key.
holds_key :
    {K V : Type 0} ⦃key : Key K⦄ (m : Hashmap K V) (l : ℕ) (k k' : K)
    → holds m l k ≡ true
    → holds m l k' ≡ true
    → k ≡ k'
holds_key ⦃key⦄ m l k k' b b' = elim (Option-cases (get_elem? m.entries l)) [
  | inl e ↦ ground (arith, e)
  | inr (t, e) ↦
      sym ((key.beq_iff t.key k).0 (ground (arith, e)))
      ∙ (key.beq_iff t.key k').0 (ground (arith, e))
]

find_key_absent :
    {K V : Type 0} ⦃key : Key K⦄ (m : Hashmap K V) (k : K) (n i : ℕ)
    → ((l : ℕ) → holds m l k ≡ false)
    → find_key m k n i ≡ none
unfolding find_key
find_key_absent m k zero i empty = refl
find_key_absent m k (suc n) i empty = rw (empty i, find_key_absent m k n (i + 1) empty)

module _ {K V : Type 0} ⦃key : Key K⦄ (m : Hashmap K V) (v : IsValid m) (k : K) where
  -- No two slots hold the key.
  abbrev pub AtMostOnce : Type 0
  AtMostOnce = (l l' : ℕ) → holds m l k ≡ true → holds m l' k ≡ true → l ≡ l'

  abbrev freed : ℕ → Hashmap K V
  freed i = record m { used = set m.used i false }

  value_at-freed : (i j : ℕ) → value_at (freed i) j ≡ value_at m j
  unfolding value_at
  value_at-freed i j = refl

  remove-some : (i : ℕ) → get m k ≡ some i → remove m k ≡ (true, freed i)
  unfolding remove get
  remove-some i e = rw (e, remove)

  remove-none : get m k ≡ none → remove m k ≡ (false, m)
  unfolding remove get
  remove-none e = rw (e, remove)

  holds-freed :
      (i l : ℕ) (k' : K)
      → i < length m.used
      → holds (freed i) l k' ≡ (if i == l then false else holds m l k')
  holds-freed i l k' h = ground (arith, get_or-set m.used i l false false)

  -- The slot held this key and so no other.
  one_key :
      (i l : ℕ) (k' : K)
      → holds m i k ≡ true
      → k' ≢ k
      → (if i == l then false else holds m l k') ≡ holds m l k'
  one_key i l k' h ne = elim (ℕ_discrete i l) [
    | no d ↦ rw (==-no i l d) refl
    | yes same ↦ elim (Bool-cases (holds m l k')) [
      | inr b ↦ ground (arith, b)
      | inl b ↦ absurd (ne (holds_key m l k' k b (subst (λ t. holds m t k ≡ true) same h)))
    ]
  ]

  get_inside : (i : ℕ) → get m k ≡ some i → (i < length m.used) × (holds m i k ≡ true)
  unfolding get
  get_inside i e =
      let (p, q, h) = find_key-some m k m.bucket_size (index m k) i e in
      (omega (arith, v.used, index-le m k v.buckets), h)

  get-freed_ne : (i : ℕ) (k' : K) → get m k ≡ some i → k' ≢ k → get (freed i) k' ≡ get m k'
  unfolding get index
  get-freed_ne i k' e ne =
      let (h, at) = get_inside i e in
      find_key_congr m (freed i) k' m.bucket_size (index m k')
        (λ l. holds-freed i l k' h ∙ one_key i l k' at ne)

  lookup-freed_ne : (i : ℕ) (k' : K) → get m k ≡ some i → k' ≢ k → lookup (freed i) k' ≡ lookup m k'
  lookup-freed_ne i k' e ne = elim (Option-cases (get m k')) [
    | inl e0 ↦ lookup-none (freed i) k' (get-freed_ne i k' e ne ∙ e0) ∙ sym (lookup-none m k' e0)
    | inr (j, ej) ↦
        lookup-some (freed i) k' j (get-freed_ne i k' e ne ∙ ej)
        ∙ value_at-freed i j
        ∙ sym (lookup-some m k' j ej)
  ]

  get-freed_self : (i : ℕ) → get m k ≡ some i → AtMostOnce → get (freed i) k ≡ none
  unfolding get index
  get-freed_self i e once =
      let (h, at) = get_inside i e in
      find_key_absent (freed i) k m.bucket_size (index m k) (λ l.
        holds-freed i l k h ∙ elim (ℕ_discrete i l) [
          | yes same ↦ ground arith
          | no d ↦
              rw (==-no i l d)
                (elim (Bool-cases (holds m l k)) [ inl b ↦ absurd (d (once i l at b)) | inr b ↦ b ])
        ])

  abbrev pub RemoveSpec : Option ℕ → Bool × Hashmap K V → Type 0
  RemoveSpec none (b, m') = (b ≡ false) × (m' ≡ m)
  RemoveSpec (some i) (b, m') =
      (b ≡ true) × ((k' : K) → k' ≢ k → lookup m' k' ≡ lookup m k') × (AtMostOnce → get m' k ≡ none)

  -- `remove` says whether the key was there, leaves the lookups of all other keys as they were, and
  -- the key is gone if it was there once; a key that was not there changes nothing.
  pub remove_lem : RemoveSpec (get m k) (remove m k)
  remove_lem = elim (Option-cases (get m k)) [
    | inl e ↦ rw (e, remove-none e) (refl, refl)
    | inr (i, e) ↦
        rw (e, remove-some i e)
          (refl, λ k' ne. lookup-freed_ne i k' e ne, λ once. get-freed_self i e once)
  ]
