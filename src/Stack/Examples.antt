-- ===== src/Stack/Examples.antt =====
-- A stack before `init`, and the theorems at it.
use launch_core.Prelude.{
  ℕ, ◌≡◌, refl, true, false, none, some, List, [], ◌==◌, ==_iff, arith, replicate, success,
}
use launch_core.Queue.Heap.{Ptr, Node, node, Heap}
use launch_core.Queue.Simple.{queue}
use launch_core.Pool.{Descriptor, descriptor}
use launch_core.Hashmap.{Key, Hashmap, add}
use launch_core.AllocQueue.{AllocQueue, alloc_queue}
use launch_core.AllocQueue.Contents.{Holds, capacity, alloc_queue-Holds}
use launch_core.Ipv4Router.Routes.{Route}
use launch_core.Ipv4Router.Table.{Table}
use launch_core.Socket.{Socket}
use launch_core.Stack.{Stack, init, add_multicast, remove_multicast}
use launch_core.Stack.Routes.{Sets, SetUp, HasRoom, init-SetUp}
use launch_core.Stack.Multicast.{Joined, add_multicast-Joined, remove_multicast-add_multicast}

instance Key_layer : Key ℕ
Key_layer = record { beq = λ a b. a == b; beq_iff = λ a b. ==_iff a b; hash = λ k. k }

abbrev memory : Heap Route
memory a = some (node 0 0 (record { addr = 0; subnet = 0; next = 0 }))

abbrev nodes : Heap Ptr
nodes a = some (node 0 0 0)

abbrev descs : List Descriptor
descs = replicate 4 (descriptor 0 true)

zero_node : Node Route
zero_node = node 0 0 (record { addr = 0; subnet = 0; next = 0 })

empty : (t : Table) × (alloc_queue 9 descs 4 memory nodes ≡ some t) × Holds t [] × (capacity t ≡ 4)
unfolding zero_node
empty =
    alloc_queue-Holds 9 descs 4 memory nodes refl (omega arith) (λ a _ _. (zero_node, refl))
      (λ a _ _. (node 0 0 0, refl))

abbrev no_entries : Hashmap ℕ ℕ
no_entries = record {
  num_buckets = 2;
  bucket_size = 2;
  entries = replicate 4 (record { key = 0; val = 0 });
  used = replicate 4 false;
}

abbrev no_queue : AllocQueue Ptr
no_queue = record {
  list = queue 0 0 0;
  pool = record { self = 0; descs = []; free_desc = queue 0 0 0; free_nodes = queue 0 0 0 };
  heap = nodes;
  nodes = nodes;
}

abbrev no_socket : Socket
no_socket = record {
  self = 0;
  rx = no_queue;
  pool = no_queue.pool;
  nodes = nodes;
  packets = λ a. record { buff = []; len = 0; ip = []; port = 0 };
  ip = [];
  port = 0;
  waiting = none;
}

-- 10.0.0.1 with the mask 255.255.255.0
abbrev stack : Stack
stack = record {
  ip = record {
    incoming = no_entries;
    prot_map = no_entries;
    prot_num_map = no_entries;
    incoming_packets = 0;
    dropped_incoming = 0;
  };
  table = empty.0;
  udp_router = record {
    port_bindings = no_entries;
    layer_bindings = no_entries;
    transmit_layer = 0;
  };
  socks = no_queue.pool;
  sock_nodes = nodes;
  sockets = λ p. no_socket;
  addr = 167772161;
  subnet = 4294967040;
  udp = 1;
  arp = 2;
  eth = 3;
  lo = 4;
}

has_room : HasRoom stack.ip 1
unfolding add Key_layer
has_room = (2, refl)

init-SetUp_example : Sets (init stack) (SetUp stack)
init-SetUp_example = init-SetUp stack empty.2 has_room

-- 224.0.0.1
add_multicast-Joined_example : Sets (add_multicast 3758096385 stack) (Joined 3758096385 stack [])
add_multicast-Joined_example = add_multicast-Joined stack empty.2 3758096385

remove_multicast-add_multicast_example :
    Sets
      (add_multicast 3758096385 stack)
      (λ _ s'. Sets (remove_multicast 3758096385 s') (λ r s''. (r ≡ success) × Holds s''.table []))
remove_multicast-add_multicast_example = remove_multicast-add_multicast stack empty.2 3758096385 tt
