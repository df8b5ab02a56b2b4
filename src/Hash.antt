-- ===== src/Hash.antt =====
-- hash/hash.h: the hash of a string, and bloom_filter/bloom_filter.h: the filter, for a `size_t` of 32
-- bits.
pub mod Strings
pub mod Filter
mod Examples
use launch_core.Prelude.{
  ℕ, zero, suc, ◌+◌, ◌-◌, ◌*◌, ◌/◌, ◌%◌, ◌^◌, Bool, Option, none, some, List, ◌==◌, if◌then◌else◌,
  get_elem?,
}

-- `a ^ b` on the low `n` bits
unfoldable pub bit_xor : ℕ → ℕ → ℕ → ℕ
bit_xor zero a b = 0
bit_xor (suc n) a b = (a % 2 + b % 2) % 2 + 2 * bit_xor n (a / 2) (b / 2)

-- The loop of StringHash::hash on a string less its NUL, on fuel.
unfoldable pub string_loop : ℕ → List ℕ → ℕ → ℕ → ℕ → Option ℕ
string_loop zero obj hash i ii = none
string_loop (suc fuel) obj hash i ii = elim (get_elem? obj i) [
  | none ↦ some hash
  | some c ↦
      string_loop fuel obj (bit_xor 32 hash (c * 2 ^ (ii * 8) % 2 ^ 32)) ((i + 1) % 4) (ii + 1)
]

-- StringHash::hash
unfoldable pub string_hash : ℕ → List ℕ → Option ℕ
string_hash fuel obj = string_loop fuel obj 0 0 0

-- `a | b` on the low `n` bits
unfoldable pub bit_or : ℕ → ℕ → ℕ → ℕ
bit_or zero a b = 0
bit_or (suc n) a b = a % 2 + b % 2 - a % 2 * (b % 2) + 2 * bit_or n (a / 2) (b / 2)

-- `~a & b` on the low `n` bits
unfoldable pub bit_andn : ℕ → ℕ → ℕ → ℕ
bit_andn zero a b = 0
bit_andn (suc n) a b = (1 - a % 2) * (b % 2) + 2 * bit_andn n (a / 2) (b / 2)

-- class BloomFilter is its word `m_data`; the HASH is an argument
module _ {T : Type 0} (hash : T → ℕ) where
  -- BloomFilter::encode
  unfoldable pub encode : T → ℕ → ℕ
  encode obj word = bit_or 32 word (hash obj)

  -- BloomFilter::present
  unfoldable pub present : T → ℕ → Bool
  present obj word = bit_andn 32 word (hash obj) == 0
