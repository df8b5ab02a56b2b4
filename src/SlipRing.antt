-- ===== src/SlipRing.antt =====
-- net/slip/SLIPRingDevice.h: a ring of devices over serial lines. The network layer above and the
-- serial device are parameters and run to their end; `none` as a whole result is a fault, where the
-- source follows a NULL pointer.
pub mod Poll
mod Examples
use launch_core.Prelude.{
  ℕ, ◌+◌, ◌-◌, ◌/◌, ◌%◌, ◌^◌, Bool, true, false, not, Option, none, some, List, [], ◌∷◌,
  if◌then◌else◌, ltb, leb, take, drop, blit, slice, Ret, success, error, sub_size,
}
use launch_core.Packet.{Packet, push, clear, allocate_header, seek_read, read_ptr, available, store}
use launch_core.Slip.{Encoder, Decoder, encode}
use launch_core.Slip
use launch_core.Net.ByteOrder.{load}

-- class SLIPRingDevice
pub record Device : Type 0 where
  pub size : ℕ
  pub packet : Packet
  pub encoder : Encoder
  pub decoder : Decoder

-- the size of `slip_ring_header_t`
abbrev pub header_size : ℕ
header_size = 4

-- The header in memory: the time to live.
abbrev pub bytes32 : ℕ → List ℕ
bytes32 n = n % 256 ∷ n / 256 % 256 ∷ n / 256 / 256 % 256 ∷ n / 256 / 256 / 256 % 256 ∷ []

-- The end of `poll`: the payload goes into the packet and up the stack. The last part of the result
-- is what was written to the serial device.
abbrev pub pass_up :
    (Packet → Ret × Packet)
    → Device
    → List ℕ
    → List (List ℕ)
    → Option (Ret × Device × List (List ℕ))
pass_up net d payload written =
    let (pushed, packet) = push (clear d.packet) payload in
    elim pushed [
      | success ↦ some ((net packet).0, record d { packet = (net packet).1 }, written)
      | _ ↦ some (error, record d { packet = packet }, written)
    ]

-- `poll` from the complete frame on. After a retransmission, `buff` is the encoder's buffer.
unfoldable pub complete : (Packet → Ret × Packet) → Device → Option (Ret × Device × List (List ℕ))
complete net d =
    if leb d.decoder.len header_size
    then some (success, d, [])
    else let ttl = (load (take header_size d.decoder.buff) + 2 ^ 32 - 1) % 2 ^ 32 in
      let frame = blit d.decoder.buff 0 (bytes32 ttl) in
      let aged = record d { decoder = record d.decoder { buff = frame } } in
      let (encoded, encoder) = encode d.encoder (take d.decoder.len frame) in
      let sent = take encoder.len encoder.buff in
      if ltb 0 ttl
      then if encoded
        then pass_up net (record aged { encoder = encoder }) (drop header_size sent) (sent ∷ [])
        else none
      else pass_up net aged (drop header_size (take d.decoder.len frame)) []

-- `poll`, with the byte that was read from the serial device, if one was read.
unfoldable pub poll :
    (Packet → Ret × Packet) → Device → Option ℕ → Option (Ret × Device × List (List ℕ))
unfolding complete
poll net d none = some (error, d, [])
poll net d (some dat) =
    let (done, decoder) = Slip.push d.decoder dat in
    let d' = record d { decoder = decoder } in
    if not done then some (success, d', []) else complete net d'

-- `transmit`, which takes the header from the device's own packet and not from its argument.
unfoldable pub transmit : Device → Packet → Ret × Device × Packet
transmit d packet =
    let (slot, own) = allocate_header d.packet header_size in
    elim slot [
      | none ↦ (error, record d { packet = own }, packet)
      | some at ↦
          (success, record d { packet = store own at (bytes32 (sub_size d.size 1)) }, packet)
    ]

-- `transmit2`, where the serial device's write is the parameter.
unfoldable pub transmit2 : (List ℕ → Ret) → Device → Packet → Ret × Device × Packet
transmit2 serial d packet =
    let sought = seek_read packet true in
    elim (read_ptr sought 1) [
      | none ↦ (error, d, sought)
      | some at ↦
          let (encoded, encoder) = encode d.encoder (slice sought.buf at (available sought)) in
          let d' = record d { encoder = encoder } in
          if encoded
          then (serial (take encoder.len encoder.buff), d', sought)
          else (error, d', sought)
    ]
