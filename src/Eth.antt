-- ===== src/Eth.antt =====
-- net/eth/: the Ethernet layer and the frame check sequence. The table of the check sequence
-- (net/eth/crctable.c) is an argument. A call of another layer is a parameter and is run to its end.
pub mod Frame
pub mod Checks
mod Examples
use launch_core.Prelude.{
  ℕ, zero, suc, ◌+◌, ◌-◌, ◌*◌, ◌/◌, ◌%◌, Bool, true, false, not, ◌&&◌, ◌||◌, Option, none, some,
  List, [], ◌∷◌, ◌++◌, if◌then◌else◌, ltb, ◌==◌, get_or, slice, Ret, success, error, add_size,
  sub_size,
}
use launch_core.Packet.{
  Packet, push, read_ptr, skip_read, allocate_header, available, truncate, payload_size,
  used_header_size, store,
}
use launch_core.Net.ByteOrder.{hton32, load}

-- class EthLayer
pub record Layer : Type 0 where
  pub mac : List ℕ
  pub proto : ℕ
  pub fcs : Bool

-- The parts of `netinfo_t` that the layer uses.
pub record Info : Type 0 where
  pub src_mac : List ℕ
  pub dst_mac : List ℕ

-- the size of `EthHeader_t`
abbrev pub header_size : ℕ
header_size = 14

-- `a ^ b` on the low `n` bits
pub bit_xor : ℕ → ℕ → ℕ → ℕ
bit_xor zero a b = 0
bit_xor (suc n) a b = (a % 2 + b % 2) % 2 + 2 * bit_xor n (a / 2) (b / 2)

-- The loop of `calculate_fcs`.
pub crc_loop : List ℕ → List ℕ → ℕ → ℕ
unfolding bit_xor
crc_loop table [] crc = crc
crc_loop table (byte ∷ bytes) crc =
    crc_loop table bytes (bit_xor 32 (get_or table (bit_xor 32 crc byte % 256) 0) (crc / 256))

unfoldable pub calculate_fcs : List ℕ → List ℕ → ℕ
unfolding crc_loop bit_xor
calculate_fcs table bytes = hton32 (bit_xor 32 (crc_loop table bytes 4294967295) 4294967295)

-- the loop that compares two addresses
abbrev pub same_mac : List ℕ → List ℕ → Bool
same_mac [] ms = true
same_mac (b ∷ bs) [] = false
same_mac (b ∷ bs) (m ∷ ms) = (b == m) && same_mac bs ms

abbrev pub matches : Layer → List ℕ → Bool
matches l dst = if get_or dst 0 0 % 2 == 0 then same_mac dst l.mac else true

-- the check sequence of a received packet, and the one that was sent with it
unfoldable pub calculated : List ℕ → Packet → ℕ
unfolding calculate_fcs
calculated table p =
    calculate_fcs table
      (slice p.buf p.hpos (sub_size (add_size (payload_size p) (used_header_size p)) 4))

unfoldable pub transmitted : Packet → ℕ
transmitted p = load (slice p.buf (p.hpos + sub_size (available p) 4) 4)

-- `receive` goes on after a header that was skipped, and returns otherwise.
abbrev pub skipped : Ret × Packet → Info → Bool × Packet × Info
skipped (success, p) info = (true, p, info)
skipped (_, p) info = (false, p, info)

-- `receive` up to the call of the upper layer; the test is false where it returns an error before.
unfoldable pub accept : List ℕ → Layer → Packet → Info → Bool × Packet × Info
unfolding calculated transmitted
accept table l p info = elim (read_ptr p header_size) [
  | none ↦ (false, p, info)
  | some at ↦
      let p1 = (truncate p (sub_size (available p) 4)).1 in
      if not (matches l (slice p.buf at 6))
      then (false, p, info)
      else if not (calculated table p == transmitted p)
      then (false, p, info)
      else skipped (skip_read p1 header_size) (record info { src_mac = slice p.buf (at + 6) 6 })
]

unfoldable pub receive :
    (Packet → Info → Ret × Packet × Info) → List ℕ → Layer → Packet → Info → Ret × Packet × Info
unfolding accept
receive upper table l p info =
    let (accepted, q, info') = accept table l p info in
    if accepted then upper q info' else (error, q, info')

unfoldable pub transmit :
    (Packet → Info → Ret × Packet × Info) → Layer → Packet → Info → Ret × Packet × Info
transmit lower l p info =
    let (slot, p') = allocate_header p header_size in
    elim slot [
      | none ↦ (error, p', info)
      | some at ↦
          lower (store p' at (info.dst_mac ++ l.mac ++ (l.proto % 256 ∷ l.proto / 256 % 256 ∷ [])))
            info
    ]

-- The loop that adds the padding; a push that fails is passed over.
abbrev pub pad : ℕ → Packet → Packet
pad zero p = p
pad (suc n) p = pad n (push p (0 ∷ [])).1

unfoldable pub transmit2 :
    (Packet → Info → Ret × Packet × Info) → List ℕ → Layer → Packet → Info → Ret × Packet × Info
unfolding calculate_fcs
transmit2 lower table l p info =
    let (slot, p') = allocate_header p header_size in
    let padded = pad (46 + header_size - add_size (payload_size p') (used_header_size p')) p' in
    let fcs =
      calculate_fcs table
        (slice padded.buf padded.hpos (add_size (payload_size padded) (used_header_size padded))) in
    let (pushed, checked) =
      push padded
        (fcs % 256 ∷ fcs / 256 % 256 ∷ fcs / 256 / 256 % 256 ∷ fcs / 256 / 256 / 256 % 256 ∷ []) in
    elim slot [
      | none ↦ (error, p', info)
      | some _ ↦
          if l.fcs
          then (elim pushed [ success ↦ lower checked info | _ ↦ (error, checked, info) ])
          else lower padded info
    ]
