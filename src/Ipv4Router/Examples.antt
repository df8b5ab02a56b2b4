-- ===== src/Ipv4Router/Examples.antt =====
-- The IPv4 router's theorem on a small datagram, and tests of the tables and of `receive`.
use launch_core.Prelude.{ℕ, ◌≡◌, refl, true, some, [], ◌∷◌, ◌==◌, ==_iff, Ret, success, error}
use launch_core.Packet.{Packet, read_ptr, skip_read, available, truncate}
use launch_core.Hashmap.{Key, Hashmap, get, lookup, value_at}
use launch_core.Ipv4Router.{Info, Router, header_size, add_incoming_route, receive}
use launch_core.Ipv4Router.Routes.{Route, matches, find_route}

instance Key_addr : Key ℕ
Key_addr = record { beq = λ a b. a == b; beq_iff = λ a b. ==_iff a b; hash = λ k. k }

abbrev one_entry : ℕ → ℕ → Hashmap ℕ ℕ
one_entry k x = record {
  num_buckets = 1;
  bucket_size = 1;
  entries = record { key = k; val = x } ∷ [];
  used = true ∷ [];
}

-- 10.0.0.1 comes in on the layer 8, and protocol 17 goes to the layer 3.
abbrev bound : Router
bound = record {
  incoming = one_entry 167772161 8;
  prot_map = one_entry 17 3;
  prot_num_map = one_entry 3 17;
  incoming_packets = 0;
  dropped_incoming = 0;
}

-- a header for 10.0.0.1 and one byte
abbrev frame : Packet
frame = record {
  buf =
      69 ∷ 0 ∷ 0 ∷ 21 ∷ 0 ∷ 0 ∷ 0 ∷ 0 ∷ 255 ∷ 17 ∷ 0 ∷ 0 ∷ 10 ∷ 0 ∷ 0 ∷ 2 ∷ 10 ∷ 0 ∷ 0 ∷ 1 ∷ 65
      ∷ [];
  size = 21;
  header_size = 0;
  wpos = 21;
  rpos = 0;
  hpos = 0;
}

abbrev trusting : Info
trusting = record { src_addr = 0; dst_addr = 0; ignore_checksums = true }

-- a layer that takes every packet
abbrev accept : ℕ → Packet → Info → Ret × Packet × Info
accept layer p info = (success, p, info)

passes : (receive accept bound frame trusting 8).1.incoming_packets ≡ 1
unfolding receive read_ptr skip_read available truncate lookup get value_at Key_addr
passes = refl

-- the packet came in on another layer
drops : (receive accept bound frame trusting 9).1.dropped_incoming ≡ 1
unfolding receive read_ptr skip_read available truncate lookup get value_at Key_addr
drops = refl

no_second_layer : add_incoming_route bound 167772161 9 ≡ (error, bound)
unfolding add_incoming_route lookup get value_at Key_addr
no_second_layer = refl

-- 10.0.0.0 with 8 bits
abbrev ten : Route
ten = record { addr = 167772160; subnet = 4278190080; next = 4 }

-- the default route
abbrev default_route : Route
default_route = record { addr = 0; subnet = 0; next = 5 }

-- The default route wins where it comes first.
default_first : find_route (default_route ∷ ten ∷ []) 167772161 ≡ some default_route
unfolding matches
default_first = refl
