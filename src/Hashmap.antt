-- ===== src/Hashmap.antt =====
-- hashmap/hashmap.h: a map of fixed size in buckets of slots. `add` and `get` return a slot, where
-- the caller writes or reads the value through a pointer.
pub mod Slots
pub mod Laws
pub mod Removal
mod Examples
use launch_core.Prelude.{
  ℕ, zero, suc, ◌+◌, ◌*◌, ◌%◌, ◌≡◌, ◌↔◌, Bool, true, false, ◌&&◌, not, Option, none, some, List,
  if◌then◌else◌, get_elem?, get_or, set, replicate,
}

-- The keys: `==`, and the `Hash<KEY>` object that the map is given.
pub record Key (K : Type 0) : Type 0 where
  pub beq : K → K → Bool
  pub beq_iff : (a b : K) → (beq a b ≡ true) ↔ (a ≡ b)
  pub hash : K → ℕ

-- struct entry_t
pub record Entry (K V : Type 0) : Type 0 where
  pub key : K
  pub val : V

-- class Hashmap
pub record Hashmap (K V : Type 0) : Type 0 where
  pub num_buckets : ℕ
  pub bucket_size : ℕ
  pub entries : List (Entry K V)
  pub used : List Bool

-- The constructor: the entries hold whatever they held, and none is used.
pub hashmap : {K V : Type 0} → ℕ → ℕ → List (Entry K V) → Hashmap K V
hashmap buckets size entries = record {
  num_buckets = buckets;
  bucket_size = size;
  entries = entries;
  used = replicate (buckets * size) false;
}

module _ {K V : Type 0} ⦃key : Key K⦄ where
  -- the first slot of the key's bucket
  pub index : Hashmap K V → K → ℕ
  index m k = key.hash k % m.num_buckets * m.bucket_size

  abbrev pub has_key : Hashmap K V → ℕ → K → Bool
  has_key m i k = elim (get_elem? m.entries i) [ none ↦ false | some e ↦ key.beq e.key k ]

  -- The loop of `remove` and `get`: the first used slot with the key among `n` from `i` on.
  pub find_key : Hashmap K V → K → ℕ → ℕ → Option ℕ
  find_key m k zero i = none
  find_key m k (suc n) i =
      if get_or m.used i false && has_key m i k then some i else find_key m k n (i + 1)

  unfoldable pub get : Hashmap K V → K → Option ℕ
  unfolding find_key index
  get m k = find_key m k m.bucket_size (index m k)

  unfoldable pub remove : Hashmap K V → K → Bool × Hashmap K V
  unfolding find_key index
  remove m k = elim (find_key m k m.bucket_size (index m k)) [
    | none ↦ (false, m)
    | some i ↦ (true, record m { used = set m.used i false })
  ]

module _ {K V : Type 0} where
  -- The loop of `add`: the first slot that is not used.
  pub find_unused : Hashmap K V → ℕ → ℕ → Option ℕ
  find_unused m zero i = none
  find_unused m (suc n) i = if not (get_or m.used i false) then some i else find_unused m n (i + 1)

  -- the entry at slot `i` with another key; its value stays
  pub set_key : Hashmap K V → ℕ → K → List (Entry K V)
  set_key m i k = elim (get_elem? m.entries i) [
    | none ↦ m.entries
    | some e ↦ set m.entries i (record e { key = k })
  ]

  -- what the caller does with the pointer that `add` returned
  unfoldable pub set_value : Hashmap K V → ℕ → V → Hashmap K V
  set_value m i v = elim (get_elem? m.entries i) [
    | none ↦ m
    | some e ↦ record m { entries = set m.entries i (record e { val = v }) }
  ]

  -- what the caller reads through the pointer that `get` returned
  unfoldable pub value_at : Hashmap K V → ℕ → Option V
  value_at m i = elim (get_elem? m.entries i) [ none ↦ none | some e ↦ some e.val ]

  unfoldable pub add : ⦃key : Key K⦄ → Hashmap K V → K → Option ℕ × Hashmap K V
  unfolding find_unused set_key index
  add m k = elim (find_unused m m.bucket_size (index m k)) [
    | none ↦ (none, m)
    | some i ↦ (some i, record m { entries = set_key m i k; used = set m.used i true })
  ]

module _ {K V : Type 0} ⦃key : Key K⦄ where
  -- what a lookup finds in the end
  unfoldable pub lookup : Hashmap K V → K → Option V
  lookup m k = elim (get m k) [ none ↦ none | some i ↦ value_at m i ]
