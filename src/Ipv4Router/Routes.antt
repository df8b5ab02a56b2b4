-- ===== src/Ipv4Router/Routes.antt =====
-- net/ipv4/IPv4Router.h: the choice of a route, `transmit` and `transmit2`. The routing table is the
-- list of its routes in the order in which its iterator visits them.
use launch_core.Prelude.{
  ℕ, zero, suc, ◌+◌, ◌*◌, ◌/◌, ◌%◌, ◌^◌, Bool, Option, none, some, List, [], ◌∷◌, ◌++◌,
  if◌then◌else◌, ltb, ◌==◌, Ret, error, add_size,
}
use launch_core.Packet.{Packet, allocate_header, payload_size, used_header_size, store}
use launch_core.Hashmap.{Key, Hashmap, lookup}
use launch_core.Net.ByteOrder.{hton16, hton32}
use launch_core.Net.Ipv4.{subnet_len}
use launch_core.Net.Ipv4.Checksum.{checksum}
use launch_core.Ipv4Router.{Info, header_size, load_words}

-- struct Route
pub record Route : Type 0 where
  pub addr : ℕ
  pub subnet : ℕ
  pub next : ℕ

-- The parts of IPv4Router that the two passes use; `route` is `m_route`.
pub record Sender : Type 0 where
  pub routes : List Route
  pub prot_num_map : Hashmap ℕ ℕ
  pub route : Option Route
  pub outgoing_packets : ℕ
  pub dropped_outgoing : ℕ

-- `a & b` on the low `n` bits
unfoldable pub bit_and : ℕ → ℕ → ℕ → ℕ
bit_and zero a b = 0
bit_and (suc n) a b = a % 2 * (b % 2) + 2 * bit_and n (a / 2) (b / 2)

abbrev pub route_sort : Route → Route → Bool
route_sort fst snd = ltb (subnet_len snd.subnet) (subnet_len fst.subnet)

unfoldable pub matches : Route → ℕ → Bool
unfolding bit_and
matches route dst = bit_and 32 route.addr route.subnet == bit_and 32 dst route.subnet

-- The loop of `transmit`.
abbrev pub find_route : List Route → ℕ → Option Route
find_route [] dst = none
find_route (route ∷ routes) dst =
    let rest = find_route routes dst in if matches route dst then some route else rest

-- A field of 16 or 32 bits in memory.
abbrev pub bytes16 : ℕ → List ℕ
bytes16 n = n % 256 ∷ n / 256 % 256 ∷ []

abbrev pub bytes32 : ℕ → List ℕ
bytes32 n = n % 256 ∷ n / 256 % 256 ∷ n / 256 / 256 % 256 ∷ n / 256 / 256 / 256 % 256 ∷ []

-- the header that `transmit` writes, with `check` as the checksum
abbrev pub header : ℕ → ℕ → ℕ → ℕ → ℕ → List ℕ
header total proto check src dst =
    69 ∷ 0 ∷ []
    ++ bytes16 (hton16 total)
    ++ (0 ∷ 0 ∷ 0 ∷ 0 ∷ 255 ∷ proto ∷ [])
    ++ bytes16 check
    ++ bytes32 (hton32 src)
    ++ bytes32 (hton32 dst)

module _ ⦃key : Key ℕ⦄ where
  unfoldable pub transmit :
      (ℕ → Packet → Info → Ret × Packet × Info)
      → Sender
      → Packet
      → Info
      → ℕ
      → (Ret × Packet × Info) × Sender
  transmit lower s packet info caller = elim (find_route s.routes info.dst_addr) [
    | none ↦ (
      (error, packet, info),
      record s { route = none; dropped_outgoing = (s.dropped_outgoing + 1) % 2 ^ 32 },
    )
    | some route ↦ elim (lookup s.prot_num_map caller) [
      | none ↦ ((error, packet, info), record s { route = some route })
      | some proto ↦
          let (slot, packet') = allocate_header packet header_size in
          elim slot [
            | none ↦ (
              (error, packet', info),
              record s { route = some route; dropped_outgoing = (s.dropped_outgoing + 1) % 2 ^ 32 },
            )
            | some at ↦
                let total = add_size (payload_size packet') (used_header_size packet') % 2 ^ 16 in
                let blank = store packet' at (header total proto 0 route.addr info.dst_addr) in
                let check = checksum (load_words blank 10 at) header_size in
                (
                  lower route.next
                      (store packet' at (header total proto check route.addr info.dst_addr))
                      (record info {
                        dst_addr = hton32 info.dst_addr;
                        src_addr = hton32 route.addr;
                      }),
                  record s { route = some route },
                )
          ]
    ]
  ]

-- `transmit2`, which follows `m_route`.
unfoldable pub transmit2 :
    (ℕ → Packet → Info → Ret × Packet × Info)
    → Sender
    → Packet
    → Info
    → Option ((Ret × Packet × Info) × Sender)
transmit2 lower s packet info =
    let (slot, packet') = allocate_header packet header_size in
    elim slot [
      | none ↦ some (
        (error, packet', info),
        record s { dropped_outgoing = (s.dropped_outgoing + 1) % 2 ^ 32 },
      )
      | some _ ↦ elim s.route [
        | none ↦ none
        | some route ↦ some (
          lower route.next packet' info,
          record s { outgoing_packets = (s.outgoing_packets + 1) % 2 ^ 32 },
        )
      ]
    ]
