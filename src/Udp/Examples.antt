-- ===== src/Udp/Examples.antt =====
-- The UDP router's theorem on a datagram for a port that was subscribed.
use launch_core.Prelude.{
  ℕ, ◌+◌, ◌≡◌, ◌≢◌, refl, true, false, none, some, [], ◌∷◌, ◌==◌, ==_iff, Ret, success, arith,
}
use launch_core.Packet.{Packet, read_ptr, skip_read}
use launch_core.Hashmap.{Key, Hashmap, get, add}
use launch_core.Hashmap.Slots.{IsValid}
use launch_core.Net.ByteOrder.{ntoh16}
use launch_core.Udp.{Info, Router, header_size, load16, subscribe_port, receive}
use launch_core.Udp.Ports.{receive-subscribe_port}

instance Key_port : Key ℕ
Key_port = record { beq = λ a b. a == b; beq_iff = λ a b. ==_iff a b; hash = λ k. k }

abbrev empty_map : Hashmap ℕ ℕ
empty_map = record {
  num_buckets = 1;
  bucket_size = 2;
  entries = record { key = 0; val = 0 } ∷ record { key = 0; val = 0 } ∷ [];
  used = false ∷ false ∷ [];
}

empty_map-IsValid : IsValid empty_map
empty_map-IsValid = record { entries = refl; used = refl; buckets = omega arith }

abbrev fresh : Router
fresh = record { port_bindings = empty_map; layer_bindings = empty_map; transmit_layer = 5 }

-- from port 7 to port 9
abbrev datagram : Packet
datagram = record {
  buf = 0 ∷ 7 ∷ 0 ∷ 9 ∷ 0 ∷ 9 ∷ 0 ∷ 0 ∷ 65 ∷ [];
  size = 9;
  header_size = 0;
  wpos = 9;
  rpos = 0;
  hpos = 0;
}

abbrev trusting : Info
trusting = record {
  src_addr = 1;
  dst_addr = 2;
  src_port = 0;
  dst_port = 0;
  ignore_checksums = true;
}

-- a layer that takes every packet
abbrev accept : ℕ → Packet → Info → Ret × Packet × Info
accept layer p info = (success, p, info)

not_bound : get empty_map 9 ≡ none
unfolding get Key_port
not_bound = refl

subscribes : (subscribe_port fresh 3 9).0 ≡ success
unfolding subscribe_port add Key_port
subscribes = refl

header_at : read_ptr datagram header_size ≡ some 0
unfolding read_ptr
header_at = refl

receive-subscribe_port_example :
    (ntoh16 (load16 datagram (0 + 2)) ≡ 9
      → receive accept (subscribe_port fresh 3 9).1 datagram trusting
        ≡ some (
            accept 3
              (skip_read datagram header_size).1
              (record trusting { src_port = ntoh16 (load16 datagram 0) })))
    × (ntoh16 (load16 datagram (0 + 2)) ≢ 9
        → receive accept (subscribe_port fresh 3 9).1 datagram trusting
          ≡ receive accept fresh datagram trusting)
receive-subscribe_port_example =
    receive-subscribe_port accept fresh 3 9 empty_map-IsValid not_bound subscribes
      (λ e. omega arith) datagram trusting 0 header_at refl
