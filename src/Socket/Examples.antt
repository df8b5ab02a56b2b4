-- ===== src/Socket/Examples.antt =====
-- A socket of two buffers, on which one packet arrives, and the theorems there.
use mathlib.Core.Path.{subst}
use launch_core.Prelude.{
  ℕ, sym, ◌≤◌, ◌<◌, ◌≡◌, refl, true, false, Option, none, some, List, [], ◌∷◌, ◌++◌, arith,
  replicate, length-replicate, success, take, ltb, if◌then◌else◌,
}
use launch_core.Queue.Heap.{Ptr, Node, node, Heap, set_item, load, write, set_prev, set_next}
use launch_core.Queue.Simple.{queue, push_node, empty_queue}
use launch_core.Queue.Chain.{Cells}
use launch_core.Pool.{Descriptor, descriptor, pool, pool_loop}
use launch_core.AllocQueue
use launch_core.Packet
use launch_core.Packet.{Packet}
use launch_core.Packet.Invariant.{IsValid}
use launch_core.Udp.{Info}
use launch_core.Sched.{Sched, boot, max_num_tasks}
use launch_core.Sched.Moves.{IsSched}
use launch_core.Sched.Reach.{Boots, Booted, boot-IsSched}
use launch_core.Socket.{Stored, Socket, mtu, socket, receive, take_packet, wrong_address}
use launch_core.Socket.Inbox.{IsSocket, inbox, Takes, take_packet-inbox}
use launch_core.Socket.Fresh.{socket-IsSocket}
use launch_core.Socket.Deliver.{Knows, Delivers, Delivers-run, Delivered, receive-inbox}
use launch_core.Socket.Roundtrip.{nothing_left, Passed, take_packet-receive}

abbrev memory : Heap Ptr
memory a = some (node 0 0 0)

abbrev descs : ℕ → List Descriptor
descs n = replicate n (descriptor 0 true)

filled : (n : ℕ) → (a : Ptr) → 0 < a → a ≤ n → (o : Node Ptr) × (memory a ≡ some o)
filled n a lt le = (node 0 0 0, refl)

abbrev no_packet : Ptr → Stored
no_packet a = record { buff = replicate mtu 0; len = 0; ip = 0 ∷ 0 ∷ 0 ∷ 0 ∷ []; port = 0 }

socket-IsSocket_example :
    (s : Socket) × (socket 9 (descs 2) (descs 2) 2 memory memory memory no_packet ≡ some s)
    × IsSocket s 2 []
socket-IsSocket_example =
    socket-IsSocket 9 (descs 2) (descs 2) memory memory memory no_packet refl (omega arith)
      (filled 2) (filled 2) (filled 2) (λ d. length-replicate {A = ℕ} mtu 0)

abbrev empty_queue_of : AllocQueue.AllocQueue Ptr
empty_queue_of = record {
  list = queue 0 0 0;
  pool = record { self = 0; descs = []; free_desc = queue 0 0 0; free_nodes = queue 0 0 0 };
  heap = memory;
  nodes = memory;
}

abbrev zero_socket : Socket
zero_socket = record {
  self = 0;
  rx = empty_queue_of;
  pool = empty_queue_of.pool;
  nodes = memory;
  packets = no_packet;
  ip = [];
  port = 0;
  waiting = none;
}

abbrev made : Option Socket → Socket
made none = zero_socket
made (some s) = s

unfoldable s0 : Socket
unfolding socket AllocQueue.alloc_queue pool pool_loop set_item load push_node empty_queue set_prev
    write set_next
s0 = made (socket 9 (descs 2) (descs 2) 2 memory memory memory no_packet)

s0-IsSocket : IsSocket s0 2 []
unfolding s0
s0-IsSocket =
    let (s, e, i) = socket-IsSocket_example in subst (λ o. IsSocket (made o) 2 []) (sym e) i

abbrev Boots-get : (o : Option Sched) → Boots o Booted → (t : Sched) × IsSched t
Boots-get none b = absurd b
Boots-get (some t) b = (t, b.0.0)

abbrev booted : (t : Sched) × IsSched t
booted = Boots-get (boot 1 2 (descs max_num_tasks) memory memory memory memory) (
    boot-IsSched 1 2 (descs max_num_tasks) memory memory memory memory refl (filled 64) (filled 64)
      (filled 64) (filled 64))

abbrev p0 : Packet
p0 = record {
  buf = 9 ∷ 9 ∷ 9 ∷ 1 ∷ 2 ∷ 3 ∷ 9 ∷ [];
  size = 7;
  header_size = 3;
  wpos = 6;
  rpos = 3;
  hpos = 3;
}

p0-IsValid : IsValid p0
p0-IsValid = omega arith

abbrev info : Info
info = record {
  src_addr = 3232235777;
  dst_addr = 3232235778;
  src_port = 7;
  dst_port = 8;
  ignore_checksums = true;
}

small : Packet.available p0 ≤ mtu
unfolding Packet.available
small = omega arith

any_address : wrong_address s0 info ≡ false
unfolding wrong_address s0
any_address = refl

no_task : s0.waiting ≡ none
unfolding s0
no_task = refl

nobody : Knows s0.waiting booted.0
nobody = subst (λ w. Knows w booted.0) (sym no_task) tt

receive-inbox_example :
    Delivers (receive p0 info s0 booted.0) (Delivered s0 2 [] p0 info booted.0 booted.1)
receive-inbox_example =
    receive-inbox [] info s0-IsSocket (omega arith) booted.1 nobody p0-IsValid (omega arith) small
      any_address

take_packet-receive_example :
    Delivers
      (receive p0 info s0 booted.0)
      (λ _ s' _. Takes (take_packet 2 s') (λ r s''. Passed 2 p0 info r × IsSocket s'' 2 []))
take_packet-receive_example =
    take_packet-receive 2 info s0-IsSocket (omega arith) booted.1 nobody p0-IsValid (omega arith)
      small any_address

-- The socket with the packet on it.
delivered : (s : Socket) × (q : Ptr) × (d : Ptr) × IsSocket s 2 ([] ++ ((q, d) ∷ []))
delivered =
    let (_, s, _, _, (_, _, _, _, (q, d, ds, i, kept, _))) =
      Delivers-run (receive p0 info s0 booted.0) _ receive-inbox_example in
    (s, q, d, subst (λ cs. IsSocket s 2 ((q, d) ∷ cs)) (nothing_left s0 2 s ds kept) i)

abbrev s1 : Socket
s1 = delivered.0

abbrev cell : Cells Ptr
cell = (delivered.1, delivered.2) ∷ []

abbrev v1 : Stored
v1 = s1.packets delivered.2

take_packet-inbox_example : Takes (take_packet 2 s1) (λ r s'.
    ((r.ret ≡ success)
      × (r.out ≡ take (if ltb 2 v1.len then 2 else v1.len) v1.buff)
      × (r.len ≡ v1.len)
      × (r.from_ip ≡ v1.ip)
      × (r.from_port ≡ v1.port))
    × IsSocket s' 2 []
    × (inbox s1 cell ≡ inbox s' [] ++ (v1 ∷ [])))
take_packet-inbox_example = take_packet-inbox 2 [] delivered.1 delivered.2 delivered.3
