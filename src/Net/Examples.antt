-- ===== src/Net/Examples.antt =====
-- The theorems on addresses, masks and checksums at concrete inputs, and tests of the functions.
use launch_core.Prelude.{ℕ, ◌+◌, ◌-◌, ◌^◌, ◌≤◌, ◌≡◌, ◌↔◌, refl, true, false, List, [], ◌∷◌, arith}
use launch_core.Net.ByteOrder.{hton16}
use launch_core.Net.Ipv4.{
  ipv4_address, valid_subnet_loop, valid_subnet, subnet_len_loop, subnet_len,
}
use launch_core.Net.Ipv4.Subnet.{valid_subnet-mask}

hton16-abcd : hton16 43981 ≡ 52651
hton16-abcd = refl

address-localhost : ipv4_address 127 0 0 1 ≡ 2130706433
address-localhost = refl

subnet-class_c : (valid_subnet 4294967040 ≡ true) × (subnet_len 4294967040 ≡ 24)
unfolding valid_subnet valid_subnet_loop subnet_len subnet_len_loop
subnet-class_c = (refl, refl)

subnet-hole : valid_subnet 4278255360 ≡ false
unfolding valid_subnet valid_subnet_loop
subnet-hole = refl

-- the mask 255.255.255.0
valid_subnet-mask_example :
    ((valid_subnet 4294967040 ≡ true) ↔ ((k : ℕ) × (k ≤ 32) × (4294967040 + 2 ^ k ≡ 2 ^ 32)))
    × ((k : ℕ) → k ≤ 32 → 4294967040 + 2 ^ k ≡ 2 ^ 32 → subnet_len 4294967040 ≡ 32 - k)
valid_subnet-mask_example = valid_subnet-mask 4294967040 (omega arith)

-- a header whose words carry once
abbrev words : List ℕ
words = 69 ∷ 40000 ∷ 30000 ∷ []
