-- ===== src/Net/Udp.antt =====
-- net/udp/udp.h: `checksum`. A header, an address and a payload are lists of bytes as they stand in
-- memory.
pub mod Sum
use launch_core.Prelude.{
  ℕ, zero, suc, ◌+◌, ◌-◌, ◌*◌, ◌/◌, ◌%◌, ◌^◌, List, [], ◌∷◌, if◌then◌else◌, ◌==◌, get_or,
}
use launch_core.Net.ByteOrder.{hton16, ntoh16}

-- One of the loops: `sum` is a `uint32_t`; a byte at an odd index is a low byte.
pub add_bytes : List ℕ → ℕ → ℕ → ℕ
add_bytes [] i sum = sum
add_bytes (byte ∷ bytes) i sum =
    add_bytes bytes (suc i)
      (if i % 2 == 1 then (sum + byte) % 2 ^ 32 else (sum + byte * 2 ^ 8) % 2 ^ 32)

-- The loop that adds the carries, on fuel.
pub fold_sum : ℕ → ℕ → ℕ
fold_sum zero sum = sum
fold_sum (suc n) sum =
    let rest = fold_sum n (sum % 65536 + sum / 65536) in if sum / 65536 == 0 then sum else rest

-- the header's field `length`, which is stored in network order
abbrev pub header_length : List ℕ → ℕ
header_length header = get_or header 4 0 + 256 * get_or header 5 0

-- the sum before the carries are added
unfoldable pub checksum_sum : List ℕ → List ℕ → List ℕ → List ℕ → ℕ
unfolding add_bytes
checksum_sum header src_ip dst_ip payload =
    let sum =
      add_bytes header 0 (add_bytes dst_ip 0 (add_bytes src_ip 0 (add_bytes payload 0 0))) in
    ((sum + 17) % 2 ^ 32 + ntoh16 (header_length header)) % 2 ^ 32

-- `~sum` is cut to 16 bits by the call of `hton16`.
unfoldable pub udp_checksum : List ℕ → List ℕ → List ℕ → List ℕ → ℕ
unfolding fold_sum checksum_sum
udp_checksum header src_ip dst_ip payload =
    hton16 ((2 ^ 32 - 1 - fold_sum 3 (checksum_sum header src_ip dst_ip payload)) % 2 ^ 16)
