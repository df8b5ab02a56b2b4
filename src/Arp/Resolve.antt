-- ===== src/Arp/Resolve.antt =====
-- The hardware addresses of the IPv4 addresses.
use launch_core.Prelude.{
  ℕ, ◌+◌, ◌*◌, ◌/◌, ◌%◌, ◌<◌, ◌≡◌, refl, ap, true, false, ◌||◌, [], ◌∷◌, replicate, arith,
}
use launch_core.Net.ByteOrder.{hton32, ntoh-hton}
use launch_core.Net.Ipv4.{ipv4_address, is_multicast, is_broadcast}
use launch_core.Arp.{fixed_mac_1, fixed_mac_2, resolve}

in_words :
    (a b c d : ℕ)
    → a < 256
    → b < 256
    → c < 256
    → d < 256
    → hton32 (ipv4_address a b c d) ≡ a + b * 256 + c * 65536 + d * 16777216
in_words a b c d ha hb hc hd = omega arith

octets :
    (x a b c d : ℕ)
    → x ≡ a + b * 256 + c * 65536 + d * 16777216
    → (a < 256) × (b < 256) × (c < 256) × (d < 256)
    → x % 256 ∷ x / 256 % 256 ∷ x / 65536 % 256 ∷ x / 16777216 % 256 ∷ [] ≡ a ∷ b ∷ c ∷ d ∷ []
octets x a b c d e (ha, hb, hc, hd) =
    let first : x % 256 ≡ a = omega (arith, e) in
    let second : x / 256 % 256 ≡ b = omega (arith, e) in
    let third : x / 65536 % 256 ≡ c = omega (arith, e) in
    let fourth : x / 16777216 % 256 ≡ d = omega (arith, e) in rw (first, second, third, fourth) refl

-- For an address in network order, as the IPv4 layer passes it on: a group address has the broadcast
-- hardware address, and a.b.c.d has the fixed bytes and a, b, c and d.
pub resolve-hton32 :
    (a b c d : ℕ)
    → a < 256
    → b < 256
    → c < 256
    → d < 256
    → (is_multicast (ipv4_address a b c d) || is_broadcast (ipv4_address a b c d) ≡ true
        → resolve (hton32 (ipv4_address a b c d)) ≡ replicate 6 255)
      × (is_multicast (ipv4_address a b c d) || is_broadcast (ipv4_address a b c d) ≡ false
          → resolve (hton32 (ipv4_address a b c d))
            ≡ fixed_mac_1 ∷ fixed_mac_2 ∷ a ∷ b ∷ c ∷ d ∷ [])
resolve-hton32 a b c d ha hb hc hd =
    let back : hton32 (hton32 (ipv4_address a b c d)) ≡ ipv4_address a b c d =
      (ntoh-hton (ipv4_address a b c d)).1 (omega arith) in
    (
      λ e. rw (back, e) refl,
      λ e.
          rw (back, e)
            (ap (λ t. fixed_mac_1 ∷ fixed_mac_2 ∷ t)
              (octets (hton32 (ipv4_address a b c d)) a b c d (in_words a b c d ha hb hc hd)
                (ha, hb, hc, hd))),
    )
