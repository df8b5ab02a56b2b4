-- ===== src/Lib.antt =====
-- launch-core: the data structures, protocols and detectors of a C++ library for rocket avionics.
--
-- The library gives a cooperative scheduler, queues, maps and buffers without dynamic allocation,
-- and a stack of network layers that pass a packet buffer down and up. The models follow the
-- headers function by function; all proofs are about these models.
--
-- * net/packet/Packet.h is Packet: `Packet` has the buffer and the four positions, and each method
--   is a function of its name on it. A pointer into the buffer is an offset, NULL is `none`, and
--   the error code stands beside the new packet. Packet/Spec is the abstract stream of bytes,
--   Packet/Invariant the order of the positions, Packet/Stream and Packet/Headers the refinement.
-- * ringbuffer/RingBuffer.h is RingBuffer, with `push` and `pop` cut into their first part and
--   their loop. RingBuffer/Window reads a run of the ring, RingBuffer/Fifo is about the plain
--   buffer and RingBuffer/Overwrite about the full, the empty and the overwriting one.
-- * queue/queue_node.h, queue/queue_simple.h and queue/queue_iterator.h are Queue. Queue/Heap is
--   the memory: a partial map from addresses to nodes, and commands that fault when they follow
--   NULL. Queue/Simple has the methods. Queue/Chain says that a list of cells is linked in the
--   memory, and Queue/Fifo, Queue/Remove and Queue/Sorted say what the methods do to such chains.
-- * pool/pool.h is Pool, on two SimpleQueues of descriptors; Pool/State says what is free, and Pool/Fresh is about the constructor and
--   Pool/Free about allocation and release. queue/allocated_queue.h is AllocQueue, a SimpleQueue in
--   the objects of a Pool: AllocQueue/Contents says what the queue holds, and AllocQueue/Order where
--   a sorted queue puts an object.
-- * sched/sched.cpp and sched/sched.h are Sched: the globals as a record, with one function for
--   each call. Its queues are AllocQueues; a task pointer is an index into the table. The task
--   functions and the clock are parameters. Sched/Places and Sched/Settle say where each task stands, Sched/Moves
--   has the invariant and the moves of one task between the queues, Sched/Oldest their tails, and
--   Sched/Calls, Sched/Suspend, Sched/Dispatch, Sched/Finish, Sched/Turns and Sched/Reach are about
--   the calls, the dispatcher's parts, its order and the states that are reached from start-up.
-- * sync/Semaphore.h and sync/BlockingSemaphore.h are Semaphore, on AllocQueue and Sched, with
--   Semaphore/Waiting. The count of the second is an `int` whose overflow is a fault.
-- * device/DeviceMap.h and init/init.h are Device, on Sched: Device/Names is about `add` and `get`, and
--   Device/Init about the init task.
-- * hash/hash.h and bloom_filter/bloom_filter.h are Hash, with Hash/Strings and Hash/Filter.
-- * hashmap/hashmap.h is Hashmap: the buckets' slots, with `add` and `get` returning a slot for
--   the pointer into it. The `Hash` object and the keys' `==` are the instance `Key`.
-- * vector/vector.h is Vector, whose loops move the elements behind an index by one place.
-- * net/slip/slip.h is Slip: encoder and decoder. A buffer is the memory from its first byte on,
--   so that a write behind the buffer's end can be stated.
-- * net/slip/SLIPRingDevice.h is SlipRing on Slip and Packet, with SlipRing/Poll.
-- * net/kiss/kiss.h is Kiss on Packet, with Kiss/Escapes. A frame's size is two more than the bytes
--   of its buffer, as the constructor makes it; a write behind the buffer changes nothing there.
-- * triple_buffer/TripleBuffer.h is TripleBuffer: the control byte. A call is the turn of its loop
--   in which the compare-and-swap succeeds, and calls interleave as whole steps.
-- * net/common.h is Net/ByteOrder, for a little-endian target; net/ipv4/ipv4.h is Net/Ipv4 with
--   Net/Ipv4/Checksum; the mask functions of net/ipv4/IPv4Router.h are Net/Ipv4 with
--   Net/Ipv4/Subnet; net/udp/udp.h is Net/Udp with Net/Udp/Sum.
-- * net/ipv4/IPv4Router.h is Ipv4Router: the tables and `receive` in Ipv4Router, with
--   Ipv4Router/Accepts; `transmit` and `transmit2` in Ipv4Router/Routes, with Ipv4Router/Prefix,
--   on the list of routes; the routing table in Ipv4Router/Table, an AllocQueue, with Ipv4Router/Entries, which has its list of
--   routes, and Ipv4Router/Changes.
--   net/udp/UDPRouter.h is Udp, with Udp/Ports. Both routers stand on Hashmap and Packet.
-- * net/stack/IPv4UDP/IPv4UDPSocket.h is Socket, on AllocQueue, Pool, Packet, Udp and Sched: its
--   pool's objects are the received packets. Socket/Inbox has the invariant and is about `recv`,
--   Socket/Receive and Socket/Deliver are about `receive`, Socket/Fresh about the constructor, and
--   Socket/Roundtrip about a packet that goes through both.
-- * net/stack/IPv4UDP/IPv4UDPStack.h is Stack, on Ipv4Router, Udp, Pool and Socket. Stack/Routes is
--   about `init` and Stack/Multicast about the multicast addresses.
-- * net/eth/EthLayer.h and net/eth/eth.h are Eth, with Eth/Frame and Eth/Checks.
-- * net/simple_arp/SimpleArpLayer.h and net/loopback/Loopback.h are Arp, with Arp/Resolve.
-- * event/*.h is Event: the detectors, a call of `calculate_event` being one step. Readings that
--   are signed in the source are numbers with the offset 2 ^ 15.
--
-- A call of the next layer is a parameter, a function that gives its result, and it is run to its
-- end: the macros that let a layer block and be resumed are not modelled.
--
-- Numbers: bytes and words are natural numbers, `size_t` has 32 bits, and its additions and
-- subtractions wrap (`add_size`, `sub_size`); the loops' counters stay below the sizes and do not
-- wrap. Fuel: the scan of a sorted queue and the walk of an iterator take fuel, and one more round
-- than the queue has nodes is enough, and so it is for the loop that wakes sleeping tasks; the loop that adds the carries of UDP's checksum has fuel 3,
-- and two rounds are enough for 32 bits. The hash of a string has fuel too, and
-- for long strings none is enough. All other loops are structural.
--
-- A spin lock that is held is never released by another context in the model, so that
-- acquiring it has no result.
--
-- Not modelled: the scheduler's macros, which jump to stored labels; the layers other than these;
-- the strings and the file system; drivers and platform code, which only move bytes and set registers;
-- the code under device/ that is generated by a manufacturer; the header-only stubs.
pub mod Prelude
pub mod Packet
pub mod Pool
pub mod RingBuffer
pub mod Queue
pub mod AllocQueue
pub mod Hashmap
pub mod Hash
pub mod Vector
pub mod Slip
pub mod TripleBuffer
pub mod Net
pub mod Sched
pub mod Semaphore
pub mod Device
pub mod Event
pub mod Udp
pub mod Ipv4Router
pub mod Socket
pub mod Stack
pub mod SlipRing
pub mod Kiss
pub mod Eth
pub mod Arp
