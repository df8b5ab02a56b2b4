-- ===== src/Ipv4Router.antt =====
-- net/ipv4/IPv4Router.h: the tables of incoming addresses and protocols, and what `receive` makes of
-- a packet. A layer is the address of its object; `none` as a whole result is a fault, where the
-- source follows a NULL pointer. A call of another layer is a parameter and is run to its end.
pub mod Accepts
pub mod Routes
pub mod Prefix
pub mod Table
pub mod Entries
pub mod Changes
mod TableExamples
mod Examples
use launch_core.Prelude.{
  ℕ, zero, suc, ◌+◌, ◌-◌, ◌*◌, ◌/◌, ◌%◌, ◌^◌, Bool, true, false, not, Option, none, some, List, [],
  ◌∷◌, if◌then◌else◌, ltb, ◌==◌, get_or, Ret, success, error,
}
use launch_core.Packet.{Packet, read_ptr, skip_read, available, truncate, store}
use launch_core.Hashmap.{Key, Hashmap, add, get, remove, set_value, lookup}
use launch_core.Net.ByteOrder.{ntoh16, ntoh32}
use launch_core.Net.Ipv4.Checksum.{checksum}

-- The parts of `netinfo_t` that `receive` uses.
pub record Info : Type 0 where
  pub src_addr : ℕ
  pub dst_addr : ℕ
  pub ignore_checksums : Bool

-- class IPv4Router, with the counters of NetworkStatistics
pub record Router : Type 0 where
  pub incoming : Hashmap ℕ ℕ
  pub prot_map : Hashmap ℕ ℕ
  pub prot_num_map : Hashmap ℕ ℕ
  pub incoming_packets : ℕ
  pub dropped_incoming : ℕ

-- the size of `IPv4Header_t`
abbrev pub header_size : ℕ
header_size = 20

-- the fields of the header at `at`, as they stand in memory
abbrev pub load8 : Packet → ℕ → ℕ
load8 p i = get_or p.buf i 0

abbrev pub load16 : Packet → ℕ → ℕ
load16 p i = load8 p i + 256 * load8 p (suc i)

abbrev pub load32 : Packet → ℕ → ℕ
load32 p i = load16 p i + 65536 * load16 p (suc (suc i))

-- `n` words of 16 bits from `at` on
abbrev pub load_words : Packet → ℕ → ℕ → List ℕ
load_words p zero i = []
load_words p (suc n) i = load16 p i ∷ load_words p n (suc (suc i))

abbrev pub version : Packet → ℕ → ℕ
version p at = load8 p at / 16

abbrev pub header_len : Packet → ℕ → ℕ
header_len p at = load8 p at % 16 * 4

-- `total_len - header_len` as a `uint16_t`
abbrev pub payload_len : Packet → ℕ → ℕ
payload_len p at = (ntoh16 (load16 p (at + 2)) + 2 ^ 16 - header_len p at) % 2 ^ 16

-- `flags_frag & 0b00111111`
abbrev pub fragment_bits : Packet → ℕ → ℕ
fragment_bits p at = load16 p (at + 6) % 64

abbrev pub is_success : Ret → Bool
is_success success = true
is_success _ = false

-- How `receive` ends before it calls the next layer: it drops the packet, or it passes it on.
pub data Verdict : Type 0 where
  dropped : Packet → Verdict
  passed : ℕ → Packet → Info → Verdict

module _ ⦃key : Key ℕ⦄ where
  unfoldable pub add_incoming_route : Router → ℕ → ℕ → Ret × Router
  add_incoming_route r addr layer = elim (lookup r.incoming addr) [
    | some _ ↦ (error, r)
    | none ↦ elim ((add r.incoming addr).0) [
      | none ↦ (error, record r { incoming = (add r.incoming addr).1 })
      | some i ↦ (success, record r { incoming = set_value (add r.incoming addr).1 i layer })
    ]
  ]

  unfoldable pub remove_incoming_route : Router → ℕ → Router
  remove_incoming_route r addr = record r { incoming = (remove r.incoming addr).1 }

  -- `add_protocol`, which writes through the pointer of the second map without a test.
  unfoldable pub add_protocol : Router → ℕ → ℕ → Option (Ret × Router)
  add_protocol r protocol layer = elim (lookup r.prot_map protocol) [
    | some _ ↦ some (error, r)
    | none ↦ elim ((add r.prot_map protocol).0) [
      | none ↦ some (error, record r { prot_map = (add r.prot_map protocol).1 })
      | some i ↦ elim ((add r.prot_num_map layer).0) [
        | none ↦ none
        | some j ↦ some (
          success,
          record r {
            prot_map = set_value (add r.prot_map protocol).1 i layer;
            prot_num_map = set_value (add r.prot_num_map layer).1 j protocol;
          },
        )
      ]
    ]
  ]

  unfoldable pub remove_protocol : Router → ℕ → Router
  remove_protocol r protocol = elim (lookup r.prot_map protocol) [
    | none ↦ r
    | some layer ↦ record r {
      prot_num_map = (remove r.prot_num_map layer).1;
      prot_map = (remove r.prot_map protocol).1;
    }
  ]

  -- `receive` from the test of the address on.
  unfoldable pub judge_address : Router → ℕ → Packet → Info → ℕ → Verdict
  judge_address r at p info caller = elim (lookup r.incoming (ntoh32 (load32 p (at + 16)))) [
    | none ↦ dropped p
    | some layer ↦
        if not (layer == caller) then dropped p else elim (lookup r.prot_map (load8 p (at + 9))) [
          | none ↦ dropped p
          | some next ↦
              let zeroed = store p (at + 10) (0 ∷ 0 ∷ []) in
              let info' = record info {
                src_addr = ntoh32 (load32 p (at + 12));
                dst_addr = ntoh32 (load32 p (at + 16));
              } in
              if info.ignore_checksums
              then passed next p info'
              else if load16 p (at + 10)
                  == checksum (load_words zeroed (header_len p at / 2) at) (header_len p at)
              then passed next zeroed info'
              else dropped zeroed
        ]
  ]

  -- `receive` up to the call of the next layer.
  unfoldable pub judge : Router → Packet → Info → ℕ → Verdict
  unfolding judge_address
  judge r p info caller = elim (read_ptr p header_size) [
    | none ↦ dropped p
    | some at ↦
        let (skipped, p1) = skip_read p (header_len p at) in
        if not (version p at == 4)
        then dropped p
        else if not (fragment_bits p at == 0)
        then dropped p
        else if not (is_success skipped)
        then dropped p1
        else if ltb (available p1) (payload_len p at)
        then dropped p1
        else judge_address r at (truncate p1 (payload_len p at)).1 info caller
  ]

  abbrev pub conclude :
      (ℕ → Packet → Info → Ret × Packet × Info)
      → Router
      → Info
      → Verdict
      → (Ret × Packet × Info) × Router
  conclude next r info (dropped p) =
      ((error, p, info), record r { dropped_incoming = (r.dropped_incoming + 1) % 2 ^ 32 })
  conclude next r info (passed layer p info') =
      (next layer p info', record r { incoming_packets = (r.incoming_packets + 1) % 2 ^ 32 })

  unfoldable pub receive :
      (ℕ → Packet → Info → Ret × Packet × Info)
      → Router
      → Packet
      → Info
      → ℕ
      → (Ret × Packet × Info) × Router
  unfolding judge
  receive next r p info caller = conclude next r info (judge r p info caller)
