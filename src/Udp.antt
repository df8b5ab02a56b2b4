-- ===== src/Udp.antt =====
-- net/udp/UDPRouter.h: ports bound to layers, and the three passes of a packet. A layer is the
-- address of its object, 0 for NULL; `none` as a whole result is a fault, where the source follows a
-- NULL pointer. A call of another layer is a parameter and is run to its end.
pub mod Ports
mod Examples
use launch_core.Prelude.{
  ℕ, zero, suc, ◌+◌, ◌*◌, ◌/◌, ◌%◌, ◌^◌, Bool, true, false, not, ◌&&◌, Option, none, some, List, [],
  ◌∷◌, ◌++◌, if◌then◌else◌, ◌==◌, get_or, slice, Ret, success, error, add_size,
}
use launch_core.Packet.{
  Packet, read_ptr, skip_read, allocate_header, available, payload_size, store,
}
use launch_core.Hashmap.{Key, Hashmap, add, get, remove, set_value, value_at, lookup}
use launch_core.Net.ByteOrder.{hton16, ntoh16, ntoh32}
use launch_core.Net.Udp.{udp_checksum}

-- The parts of `netinfo_t` that the router uses.
pub record Info : Type 0 where
  pub src_addr : ℕ
  pub dst_addr : ℕ
  pub src_port : ℕ
  pub dst_port : ℕ
  pub ignore_checksums : Bool

-- class UDPRouter
pub record Router : Type 0 where
  pub port_bindings : Hashmap ℕ ℕ
  pub layer_bindings : Hashmap ℕ ℕ
  pub transmit_layer : ℕ

-- the size of `UDP_HEADER_T`, and its fields' offsets
abbrev pub header_size : ℕ
header_size = 8

-- A field of 16 bits in memory, read and written as it stands there.
abbrev pub load16 : Packet → ℕ → ℕ
load16 p i = get_or p.buf i 0 + 256 * get_or p.buf (suc i) 0

abbrev pub bytes16 : ℕ → List ℕ
bytes16 n = n % 256 ∷ n / 256 % 256 ∷ []

abbrev pub bytes32 : ℕ → List ℕ
bytes32 n = n % 256 ∷ n / 256 % 256 ∷ n / 256 / 256 % 256 ∷ n / 256 / 256 / 256 % 256 ∷ []

module _ ⦃key : Key ℕ⦄ where
  unfoldable pub subscribe_port : Router → ℕ → ℕ → Ret × Router
  subscribe_port r layer port_num = elim ((add r.port_bindings port_num).0) [
    | none ↦ (error, record r { port_bindings = (add r.port_bindings port_num).1 })
    | some i ↦ elim ((add r.layer_bindings layer).0) [
      | none ↦ (
        error,
        record r {
          port_bindings = (add r.port_bindings port_num).1;
          layer_bindings = (add r.layer_bindings layer).1;
        },
      )
      | some j ↦ (
        success,
        record r {
          port_bindings = set_value (add r.port_bindings port_num).1 i layer;
          layer_bindings = set_value (add r.layer_bindings layer).1 j port_num;
        },
      )
    ]
  ]

  unfoldable pub unsubscribe_port : Router → ℕ → Option (Ret × Router)
  unsubscribe_port r port_num = elim (lookup r.port_bindings port_num) [
    | none ↦ none
    | some layer ↦
        let (device_success, layers) = remove r.layer_bindings layer in
        let (protocol_success, ports) = remove r.port_bindings port_num in
        some (
          if device_success && protocol_success then success else error,
          record r { port_bindings = ports; layer_bindings = layers },
        )
  ]

  -- What `receive` does after the checksum.
  unfoldable pub deliver :
      (ℕ → Packet → Info → Ret × Packet × Info) → Router → ℕ → Packet → Info → Ret × Packet × Info
  deliver next r port packet info = elim (lookup r.port_bindings port) [
    | none ↦ (error, packet, info)
    | some layer ↦ if layer == 0 then (error, packet, info) else next layer packet info
  ]

  -- The checksum of the datagram at `at`, whose field for it is zeroed before.
  unfoldable pub packet_checksum : Packet → ℕ → ℕ → ℕ → ℕ
  packet_checksum packet at src_ip dst_ip =
      udp_checksum (slice packet.buf at header_size) (bytes32 src_ip) (bytes32 dst_ip)
        (slice packet.buf packet.rpos (available packet))

  -- `receive`, which reads the source port before it compares the header's pointer with NULL.
  unfoldable pub receive :
      (ℕ → Packet → Info → Ret × Packet × Info)
      → Router
      → Packet
      → Info
      → Option (Ret × Packet × Info)
  unfolding deliver packet_checksum
  receive next r packet info = elim (read_ptr packet header_size) [
    | none ↦ none
    | some at ↦
        let from = record info { src_port = ntoh16 (load16 packet at) } in
        let port = ntoh16 (load16 packet (at + 2)) in
        let ahead = (skip_read packet header_size).1 in
        let zeroed = store ahead (at + 6) (0 ∷ 0 ∷ []) in
        some (
          if info.ignore_checksums
          then deliver next r port ahead from
          else if load16 packet (at + 6)
              == packet_checksum zeroed at (ntoh32 info.src_addr) (ntoh32 info.dst_addr)
          then deliver next r port zeroed from
          else (error, zeroed, from))
  ]

  unfoldable pub transmit :
      (ℕ → Packet → Info → Ret × Packet × Info) → Router → Packet → Info → ℕ → Ret × Packet × Info
  transmit lower r packet info caller = elim ((allocate_header packet header_size).0) [
    | none ↦ (error, packet, info)
    | some at ↦
        let packet' = (allocate_header packet header_size).1 in
        elim (lookup r.layer_bindings caller) [
          | none ↦ (error, packet', info)
          | some src_port ↦
              lower r.transmit_layer
                (store packet' at (
                  bytes16 (hton16 src_port)
                  ++ bytes16 (hton16 info.dst_port)
                  ++ bytes16 (hton16 (add_size header_size (payload_size packet') % 2 ^ 16))
                  ++ 0 ∷ 0 ∷ []))
                info
        ]
  ]

  unfoldable pub transmit2 :
      (ℕ → Packet → Info → Ret × Packet × Info) → Router → Packet → Info → Ret × Packet × Info
  unfolding packet_checksum
  transmit2 lower r packet info = elim ((allocate_header packet header_size).0) [
    | none ↦ (error, packet, info)
    | some at ↦
        let packet' = (allocate_header packet header_size).1 in
        lower r.transmit_layer
          (store packet' (at + 6)
            (bytes16 (packet_checksum packet' at info.src_addr info.dst_addr)))
          info
  ]
