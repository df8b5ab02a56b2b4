-- ===== src/SlipRing/Examples.antt =====
-- The ring device on a frame with one byte of payload.
use launch_core.Prelude.{
  ◌≡◌, ◌<◌, ◌≤◌, ◌^◌, refl, false, [], ◌∷◌, length, take, drop, size_mod, Ret, success, error,
  arith,
}
use launch_core.Packet.{Packet, allocate_header}
use launch_core.Slip.Framing.{frame, framed}
use launch_core.Net.ByteOrder.{load}
use launch_core.SlipRing.{Device, header_size, complete, transmit}
use launch_core.SlipRing.Poll.{HandsUp, aged, frame_bytes, complete-ttl}
use launch_core.Packet.Invariant.{IsValid, Fits}

abbrev store_packet : Packet
store_packet = record {
  buf = 0 ∷ 0 ∷ 0 ∷ 0 ∷ 0 ∷ 0 ∷ 0 ∷ 0 ∷ [];
  size = 8;
  header_size = 0;
  wpos = 0;
  rpos = 0;
  hpos = 0;
}

-- The decoder holds a frame that has two devices to go.
abbrev third : Device
third = record {
  size = 3;
  packet = store_packet;
  encoder = record { buff = 0 ∷ 0 ∷ 0 ∷ 0 ∷ 0 ∷ 0 ∷ 0 ∷ 0 ∷ []; len = 8; size = 8 };
  decoder = record {
    buff = 2 ∷ 0 ∷ 0 ∷ 0 ∷ 65 ∷ 0 ∷ [];
    len = 5;
    size = 6;
    parsing = false;
    escape = false;
  };
}

-- a network layer that takes every packet
abbrev accept : Packet → Ret × Packet
accept p = (success, p)

-- The device's packet has no room for headers, and the argument is left as it is.
no_header : transmit third store_packet ≡ (error, third, store_packet)
unfolding transmit allocate_header
no_header = refl

store_packet-IsValid : IsValid store_packet
store_packet-IsValid = omega arith

complete-ttl_example :
    (load (take header_size third.decoder.buff) ≡ 1
      → Fits third.packet (length (drop header_size (frame_bytes third)))
      → HandsUp accept
          (aged third)
          (drop header_size (frame_bytes third))
          []
          (complete accept third))
    × (1 < load (take header_size third.decoder.buff)
        → load (take header_size third.decoder.buff) < 2 ^ 32
        → third.encoder.size ≤ length third.encoder.buff
        → third.encoder.size < size_mod
        → length (frame (frame_bytes (aged third))) ≤ third.encoder.size
        → Fits third.packet (length (drop header_size (frame (frame_bytes (aged third)))))
        → HandsUp accept
            (record (aged third) { encoder = framed third.encoder (frame_bytes (aged third)) })
            (drop header_size (frame (frame_bytes (aged third))))
            (frame (frame_bytes (aged third)) ∷ [])
            (complete accept third))
complete-ttl_example = complete-ttl accept third (omega arith) store_packet-IsValid
