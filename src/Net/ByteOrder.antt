-- ===== src/Net/ByteOrder.antt =====
-- net/common.h on a little-endian target, where an integer's bytes are in memory from the low one on.
use launch_core.Prelude.{
  ℕ, zero, suc, ◌+◌, ◌*◌, ◌/◌, ◌%◌, ◌^◌, ◌<◌, ◌≡◌, List, [], ◌∷◌, set, replicate, arith,
}

-- The loop of the functions: the bytes of `n`, from index `i` down to 0.
abbrev pub store_bytes : ℕ → ℕ → List ℕ → List ℕ
store_bytes zero n ret = ret
store_bytes (suc i) n ret = store_bytes i (n / 256) (set ret i (n % 256))

-- an integer that is read from memory
abbrev pub load : List ℕ → ℕ
load [] = 0
load (byte ∷ bytes) = byte + 256 * load bytes

abbrev pub hton16 : ℕ → ℕ
hton16 n = load (store_bytes 2 n (replicate 2 0))

abbrev pub hton32 : ℕ → ℕ
hton32 n = load (store_bytes 4 n (replicate 4 0))

abbrev pub hton64 : ℕ → ℕ
hton64 n = load (store_bytes 8 n (replicate 8 0))

abbrev pub ntoh16 : ℕ → ℕ
ntoh16 n = hton16 n

abbrev pub ntoh32 : ℕ → ℕ
ntoh32 n = hton32 n

abbrev pub ntoh64 : ℕ → ℕ
ntoh64 n = hton64 n

-- Swapping the bytes of a 16-bit, a 32-bit or a 64-bit integer twice gives the integer back.
pub ntoh-hton :
    (n : ℕ)
    → (n < 2 ^ 16 → ntoh16 (hton16 n) ≡ n)
      × (n < 2 ^ 32 → ntoh32 (hton32 n) ≡ n)
      × (n < 2 ^ 64 → ntoh64 (hton64 n) ≡ n)
ntoh-hton n = (λ h. omega arith, λ h. omega arith, λ h. omega arith)

-- The two bytes of an integer, swapped.
pub hton16_swap :
    (hi lo : ℕ) → hi < 256 → lo < 256 → hton16 (lo + 256 * (hi + 256 * 0)) ≡ hi + 256 * lo
hton16_swap hi lo h l = omega arith
