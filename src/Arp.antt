-- ===== src/Arp.antt =====
-- net/simple_arp/SimpleArpLayer.h and net/loopback/Loopback.h: two layers at the bottom of the stack.
-- A call of another layer is a parameter and is run to its end.
pub mod Resolve
mod Examples
use launch_core.Prelude.{
  ℕ, ◌+◌, ◌/◌, ◌%◌, Bool, true, false, ◌||◌, Option, none, some, List, [], ◌∷◌, if◌then◌else◌,
  replicate, Ret, success, error,
}
use launch_core.Packet.{Packet, header_ptr, seek_read, store}
use launch_core.Net.ByteOrder.{hton32}
use launch_core.Net.Ipv4.{ipv4_address, is_multicast, is_broadcast}

-- The parts of `netinfo_t` that the layers use.
pub record Info : Type 0 where
  pub dst_addr : ℕ
  pub dst_mac : List ℕ
  pub ignore_checksums : Bool

abbrev pub fixed_mac_1 : ℕ
fixed_mac_1 = 108

abbrev pub fixed_mac_2 : ℕ
fixed_mac_2 = 105

-- The hardware address that `transmit` fills in.
abbrev pub resolve : ℕ → List ℕ
resolve ip =
    let big_ipv4 = hton32 ip in
    if is_multicast big_ipv4 || is_broadcast big_ipv4
    then replicate 6 255
    else fixed_mac_1
      ∷ fixed_mac_2
      ∷ ip % 256
      ∷ ip / 256 % 256
      ∷ ip / 65536 % 256
      ∷ ip / 16777216 % 256
      ∷ []

-- SimpleArpLayer::transmit and transmit2
abbrev pub arp_transmit :
    (Packet → Info → Ret × Packet × Info) → Packet → Info → Ret × Packet × Info
arp_transmit lower p info = lower p (record info { dst_mac = resolve info.dst_addr })

abbrev pub arp_transmit2 :
    (Packet → Info → Ret × Packet × Info) → Packet → Info → Ret × Packet × Info
arp_transmit2 lower p info = lower p info

abbrev pub bytes32 : ℕ → List ℕ
bytes32 n = n % 256 ∷ n / 256 % 256 ∷ n / 256 / 256 % 256 ∷ n / 256 / 256 / 256 % 256 ∷ []

-- Loopback::transmit2, which writes 127.0.0.1 as the destination of the IPv4 header.
unfoldable pub loopback_transmit2 :
    (Packet → Info → Ret × Packet × Info) → Packet → Info → Ret × Packet × Info
loopback_transmit2 caller p info = elim (header_ptr p 20) [
  | none ↦ (error, p, info)
  | some at ↦
      caller (seek_read (store p (at + 16) (bytes32 (hton32 (ipv4_address 127 0 0 1)))) true)
        (record info { ignore_checksums = true })
]
