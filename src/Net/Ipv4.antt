-- ===== src/Net/Ipv4.antt =====
-- net/ipv4/ipv4.h: addresses; and net/ipv4/IPv4Router.h: subnet masks.
pub mod Checksum
pub mod Subnet
use launch_core.Prelude.{
  ℕ, zero, suc, ◌+◌, ◌-◌, ◌*◌, ◌/◌, ◌%◌, ◌^◌, ◌≤◌, ◌<◌, ◌≡◌, ◌↔◌, refl, Bool, true, false, not,
  ◌||◌, ◌&&◌, if◌then◌else◌, ltb, leb, ◌==◌, arith,
}

-- IPv4Address: the four octets do not overlap, so the sum is the bitwise or.
abbrev pub ipv4_address : ℕ → ℕ → ℕ → ℕ → ℕ
ipv4_address a b c d = d + c * 2 ^ 8 + b * 2 ^ 16 + a * 2 ^ 24

abbrev pub is_multicast : ℕ → Bool
is_multicast addr = if ltb addr 3758096384 || ltb 4026531839 addr then false else true

abbrev pub is_broadcast : ℕ → Bool
is_broadcast addr = addr == 4294967295

-- whether bit `i` is set
abbrev pub bit : ℕ → ℕ → Bool
bit n i = not (n / 2 ^ i % 2 == 0)

-- The loop of `valid_subnet` from bit `i` on, with `n` more turns.
unfoldable pub valid_subnet_loop : ℕ → ℕ → Bool → ℕ → Bool
valid_subnet_loop subnet i ones zero = true
valid_subnet_loop subnet i true (suc n) =
    let rest = valid_subnet_loop subnet (suc i) true n in if not (bit subnet i) then false else rest
valid_subnet_loop subnet i false (suc n) =
    let rest = valid_subnet_loop subnet (suc i) (bit subnet i) n in rest

unfoldable pub valid_subnet : ℕ → Bool
unfolding valid_subnet_loop
valid_subnet subnet = valid_subnet_loop subnet 0 false 32

-- The loop of `subnet_len`.
unfoldable pub subnet_len_loop : ℕ → ℕ → ℕ → ℕ
subnet_len_loop subnet i zero = 0
subnet_len_loop subnet i (suc n) =
    let rest = subnet_len_loop subnet (suc i) n in if bit subnet i then 32 - i else rest

unfoldable pub subnet_len : ℕ → ℕ
unfolding subnet_len_loop
subnet_len subnet = subnet_len_loop subnet 0 32

-- The multicast addresses are those from 224.0.0.0 to 239.255.255.255, and the broadcast address is
-- 255.255.255.255.
address-classes :
    (a b c d : ℕ)
    → a < 256
    → b < 256
    → c < 256
    → d < 256
    → ((is_multicast (ipv4_address a b c d) ≡ true) ↔ ((224 ≤ a) × (a ≤ 239)))
      × ((is_broadcast (ipv4_address a b c d) ≡ true)
          ↔ ((a ≡ 255) × (b ≡ 255) × (c ≡ 255) × (d ≡ 255)))
address-classes a b c d ha hb hc hd =
    ((λ e. ground arith, λ e. ground arith), (λ e. ground arith, λ e. ground arith))
