-- ===== src/Hashmap/Slots.antt =====
-- The two searches of a bucket, and what an operation does to the slots.
use mathlib.Core.Path.{subst}
use native.Mathlib.Nat.{mod-lt}
use native.Mathlib.Decide.{ℕ_discrete}
use launch_core.Prelude.{
  ℕ, zero, suc, ◌+◌, ◌*◌, ◌%◌, ◌≤◌, ◌<◌, ◌≡◌, refl, sym, ap, Bool, true, false, ◌&&◌, none, some,
  arith, get_or, length,
}
use launch_core.Hashmap.{Key, Hashmap, index, has_key, find_key, find_unused}

-- The arrays have a slot for each place of each bucket.
pub record IsValid {K V : Type 0} (m : Hashmap K V) : Type 0 where
  pub entries : length m.entries ≡ m.num_buckets * m.bucket_size
  pub used : length m.used ≡ m.num_buckets * m.bucket_size
  pub buckets : 0 < m.num_buckets

mul-add_le : (a b n : ℕ) → a < n → a * b + b ≤ n * b
mul-add_le a b n h = grind arith

module _ {K V : Type 0} ⦃key : Key K⦄ where
  -- slot `i` is in use for the key `k`
  abbrev pub holds : Hashmap K V → ℕ → K → Bool
  holds m i k = get_or m.used i false && has_key m i k

  -- A bucket lies inside the arrays.
  pub index-le :
      (m : Hashmap K V) (k : K)
      → 0 < m.num_buckets
      → index m k + m.bucket_size ≤ m.num_buckets * m.bucket_size
  unfolding index
  index-le m k h =
      mul-add_le (key.hash k % m.num_buckets) m.bucket_size m.num_buckets (mod-lt (key.hash k) h)

  pub find_key-some :
      (m : Hashmap K V) (k : K) (n i j : ℕ)
      → find_key m k n i ≡ some j
      → (i ≤ j) × (j < i + n) × (holds m j k ≡ true)
  unfolding find_key
  find_key-some m k zero i j e = cc
  find_key-some m k (suc n) i j e = ground (arith, find_key-some m k n (i + 1) j)

  pub find_key-none :
      (m : Hashmap K V) (k : K) (n i l : ℕ)
      → find_key m k n i ≡ none
      → i ≤ l
      → l < i + n
      → holds m l k ≡ false
  unfolding find_key
  find_key-none m k zero i l e p q = absurd (omega arith)
  find_key-none m k (suc n) i l e p q = ground (arith, find_key-none m k n (i + 1) l)

  pub find_key_congr :
      (m m' : Hashmap K V) (k : K) (n i : ℕ)
      → ((l : ℕ) → holds m' l k ≡ holds m l k)
      → find_key m' k n i ≡ find_key m k n i
  unfolding find_key
  find_key_congr m m' k zero i same = refl
  find_key_congr m m' k (suc n) i same = rw (same i, find_key_congr m m' k n (i + 1) same)

  -- No slot before the one that is found holds the key.
  pub find_key_before :
      (m : Hashmap K V) (k : K) (n i j l : ℕ)
      → find_key m k n i ≡ some j
      → i ≤ l
      → l < j
      → holds m l k ≡ false
  unfolding find_key
  find_key_before m k zero i j l e p q = cc
  find_key_before m k (suc n) i j l e p q = ground (arith, find_key_before m k n (i + 1) j l)

  -- The first slot that holds the key is found.
  pub find_key_first :
      (m : Hashmap K V) (k : K) (n i j : ℕ)
      → i ≤ j
      → j < i + n
      → holds m j k ≡ true
      → ((l : ℕ) → i ≤ l → l < j → holds m l k ≡ false)
      → find_key m k n i ≡ some j
  unfolding find_key
  find_key_first m k zero i j p q b before = absurd (omega arith)
  find_key_first m k (suc n) i j p q b before = elim (ℕ_discrete i j) [
    | yes e ↦ rw (subst (λ t. holds m t k ≡ true) (sym e) b) (ap some e)
    | no ne ↦ rw (before i (omega arith) (omega arith)) (
        find_key_first m k n (i + 1) j (omega arith) (omega arith) b
          (λ l s t. before l (omega arith) t))
  ]

module _ {K V : Type 0} where
  pub find_unused-some :
      (m : Hashmap K V) (n i j : ℕ)
      → find_unused m n i ≡ some j
      → (i ≤ j) × (j < i + n) × (get_or m.used j false ≡ false)
  unfolding find_unused
  find_unused-some m zero i j e = cc
  find_unused-some m (suc n) i j e = ground (arith, find_unused-some m n (i + 1) j)

  pub find_unused-none :
      (m : Hashmap K V) (n i l : ℕ)
      → find_unused m n i ≡ none
      → i ≤ l
      → l < i + n
      → get_or m.used l false ≡ true
  unfolding find_unused
  find_unused-none m zero i l e p q = absurd (omega arith)
  find_unused-none m (suc n) i l e p q = ground (arith, find_unused-none m n (i + 1) l)
