-- ===== src/Ipv4Router/Accepts.antt =====
-- Which packets `receive` passes on.
use launch_core.Prelude.{ℕ, ◌+◌, ◌/◌, ◌%◌, ◌≡◌, some, ◌≤◌, success}
use launch_core.Packet.{Packet, read_ptr, skip_read, available}
use launch_core.Hashmap.{Key, lookup}
use launch_core.Net.ByteOrder.{ntoh32}
use launch_core.Ipv4Router.{
  Router, Verdict, dropped, passed, header_size, load8, load32, version, header_len, payload_len,
  fragment_bits,
}

-- Of the first byte of `flags_frag`, the bit for more fragments and the five high bits of the offset
-- are 0.
abbrev pub OffsetBelow256 : Packet → ℕ → Type 0
OffsetBelow256 p at = (load8 p (at + 6) / 32 % 2 ≡ 0) × (load8 p (at + 6) % 32 ≡ 0)

module _ ⦃key : Key ℕ⦄ where
  -- What a verdict to pass a packet on says.
  abbrev pub AddressSpec : Router → ℕ → Packet → ℕ → Verdict → Type 0
  AddressSpec r at p caller (dropped q) = caller ≡ caller
  AddressSpec r at p caller (passed layer q info) =
      (lookup r.incoming (ntoh32 (load32 p (at + 16))) ≡ some caller)
      × (lookup r.prot_map (load8 p (at + 9)) ≡ some layer)
      × (info.dst_addr ≡ ntoh32 (load32 p (at + 16)))
      × (info.src_addr ≡ ntoh32 (load32 p (at + 12)))

  abbrev pub JudgeSpec : Router → Packet → ℕ → Verdict → Type 0
  JudgeSpec r p caller (dropped q) = caller ≡ caller
  JudgeSpec r p caller (passed layer q info) =
      (at : ℕ) × (read_ptr p header_size ≡ some at)
      × (version p at ≡ 4)
      × (fragment_bits p at ≡ 0)
      × ((skip_read p (header_len p at)).0 ≡ success)
      × (payload_len p at ≤ available (skip_read p (header_len p at)).1)
      × (lookup r.incoming info.dst_addr ≡ some caller)
      × (lookup r.prot_map (load8 p (at + 9)) ≡ some layer)
      × (info.dst_addr ≡ ntoh32 (load32 p (at + 16)))
      × (info.src_addr ≡ ntoh32 (load32 p (at + 12)))
