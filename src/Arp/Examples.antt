-- ===== src/Arp/Examples.antt =====
-- The hardware address of 10.0.0.7, and tests of the two layers.
use launch_core.Prelude.{◌≡◌, refl, false, [], success, error}
use launch_core.Packet.{Packet, header_ptr}
use launch_core.Arp.{loopback_transmit2}

abbrev plain : Packet
plain = record { buf = []; size = 0; header_size = 0; wpos = 0; rpos = 0; hpos = 0 }

no_room :
    (loopback_transmit2
      (λ p info. (success, p, info))
      plain
      record { dst_addr = 1; dst_mac = []; ignore_checksums = false }).0
    ≡ error
unfolding loopback_transmit2 header_ptr
no_room = refl
