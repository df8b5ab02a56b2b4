-- ===== src/Socket.antt =====
-- net/stack/IPv4UDP/IPv4UDPSocket.h: a socket, with its queue of received packets, the pool that
-- they are in, and the task that waits for one.
pub mod Inbox
pub mod Fresh
pub mod Receive
pub mod Deliver
pub mod Roundtrip
mod Examples
use launch_core.Prelude.{
  ℕ, ◌*◌, ◌%◌, ◌^◌, Bool, true, false, not, ◌||◌, ◌&&◌, Option, none, some, List, [], ◌∷◌, ◌==◌,
  if◌then◌else◌, ltb, get_or, take, blit, Ret, success, error, blocked,
}
use launch_core.Queue.Heap.{Ptr, null, Heap}
use launch_core.Pool.{Descriptor, Pool, pool, alloc, free}
use launch_core.AllocQueue
use launch_core.AllocQueue.{AllocQueue, alloc_queue}
use launch_core.Hashmap.{Key}
use launch_core.Packet.{Packet}
use launch_core.Packet
use launch_core.Net.Ipv4.{ipv4_address}
use launch_core.Udp
use launch_core.Udp.{Info}
use launch_core.Sched.{Sched, sched_wake, sched_block}

-- packet_t; `buff` has MTU bytes
pub record Stored : Type 0 where
  pub buff : List ℕ
  pub len : ℕ
  pub ip : List ℕ
  pub port : ℕ

-- class IPv4UDPSocket: `packets` is the memory of the pool's objects, and `waiting` is `m_blocked`,
-- with `none` for -1. The address of the socket is `self`; the router is an argument where it is used.
pub record Socket : Type 0 where
  pub self : Ptr
  pub rx : AllocQueue Ptr
  pub pool : Pool
  pub nodes : Heap Ptr
  pub packets : Ptr → Stored
  pub ip : List ℕ
  pub port : ℕ
  pub waiting : Option ℕ

-- the largest Ethernet frame without the three headers and the check sequence
abbrev pub mtu : ℕ
mtu = 1472

infixl 5 ◌>>=◌
abbrev ◌>>=◌ : {A B : Type 0} → Option A → (A → Option B) → Option B
none >>= f = none
some a >>= f = f a

-- alloc::IPv4UDPSocket::IPv4UDPSocket, on memory with any contents: the arrays of the queue and of
-- the pool, and the packets
unfoldable pub socket :
    Ptr
    → List Descriptor
    → List Descriptor
    → ℕ
    → Heap Ptr
    → Heap Ptr
    → Heap Ptr
    → (Ptr → Stored)
    → Option Socket
socket self ds ds' size objects nodes nodes' packets = do
  rx ← alloc_queue self ds size objects nodes
  (pool', nodes'') ← pool self ds' size nodes'
  some (record {
    self = self;
    rx = rx;
    pool = pool';
    nodes = nodes'';
    packets = packets;
    ip = 0 ∷ 0 ∷ 0 ∷ 0 ∷ [];
    port = 0;
    waiting = none;
  })

module _ ⦃key : Key ℕ⦄ where
  -- bind
  unfoldable pub bind : List ℕ → ℕ → Socket → Udp.Router → Ret × Socket × Udp.Router
  bind ip port s r =
      let (ret, r') = Udp.subscribe_port r s.self port in
      (ret, record s { ip = ip; port = port }, r')

  -- unbind
  unfoldable pub unbind : Socket → Udp.Router → Option (Ret × Udp.Router)
  unbind s r = if not (s.port == 0) then Udp.unsubscribe_port r s.port else some (success, r)

-- available
unfoldable pub available : Socket → ℕ
available s = AllocQueue.size s.rx

-- receive: whether the packet's destination is another address than the socket's
abbrev pub octet : List ℕ → ℕ → ℕ
octet ip i = get_or ip i 0

unfoldable pub wrong_address : Socket → Info → Bool
wrong_address s info =
    not (octet s.ip 0 == 0 && octet s.ip 1 == 0 && octet s.ip 2 == 0 && octet s.ip 3 == 0)
    && not
        (ipv4_address (octet s.ip 0) (octet s.ip 1) (octet s.ip 2) (octet s.ip 3) == info.dst_addr)

-- receive: the oldest packet goes, and its buffer is taken
unfoldable pub drop_oldest : Socket → Option (Ptr × Socket)
drop_oldest s = do
  (_, rx) ← AllocQueue.pop s.rx
  old ← AllocQueue.read (AllocQueue.peek s.rx) rx
  ((_, pool), nodes) ← free s.pool old s.nodes
  ((buff, pool'), nodes') ← alloc pool nodes
  some (buff, record s { rx = rx; pool = pool'; nodes = nodes' })

-- receive: a buffer for the packet
unfoldable pub take_buffer : Socket → Option (Ptr × Socket)
take_buffer s = do
  ((buff, pool), nodes) ← alloc s.pool s.nodes
  let s' = record s { pool = pool; nodes = nodes }
  if buff == null then drop_oldest s' else some (buff, s')

-- receive: the octets of the source as the code takes them, by shifts to the left
unfoldable pub source_octets : ℕ → List ℕ
source_octets addr =
    (addr * 2 ^ 24 % 2 ^ 32 % 256)
    ∷ (addr * 2 ^ 16 % 2 ^ 32 % 256)
    ∷ (addr * 2 ^ 8 % 2 ^ 32 % 256)
    ∷ (addr % 256)
    ∷ []

abbrev pub put : (Ptr → Stored) → Ptr → Stored → Ptr → Stored
put m p v a = if a == p then v else m a

abbrev pub is_success : Ret → Bool
is_success success = true
is_success r = false

-- receive: the packet is copied into the buffer
unfoldable pub fill : Ptr → Packet → Info → Socket → Option ((Ret × Packet) × Socket)
fill buff p info s =
    let size = Packet.available p in
    let (ret, p', bytes) = Packet.read p size in
    if buff == null
    then none
    else if is_success ret
    then some (
      (success, p'),
      record s {
        packets = put s.packets buff (record {
          buff = blit (s.packets buff).buff 0 bytes;
          len = size;
          ip = source_octets info.src_addr;
          port = info.src_port;
        });
      },
    )
    else some ((error, p'), s)

-- receive: the task that waits is woken
unfoldable pub wake_waiting : Option ℕ → Sched → Option Sched
wake_waiting none t = some t
wake_waiting (some tid) t = do (_, t') ← sched_wake tid t; some t'

-- receive
unfoldable pub receive : Packet → Info → Socket → Sched → Option ((Ret × Packet) × Socket × Sched)
receive p info s t =
    if ltb mtu (Packet.available p)
    then some ((error, p), s, t)
    else if wrong_address s info
    then some ((error, p), s, t)
    else (do
      (buff, s1) ← take_buffer s
      (_, rx) ← AllocQueue.push buff s1.rx
      ((ret, p'), s2) ← fill buff p info (record s1 { rx = rx })
      t' ← if is_success ret then wake_waiting s2.waiting t else some t
      some ((ret, p'), s2, t'))

-- What `recv` gives its caller: the code, the bytes for `buff`, the length for `*len`, and the source.
pub record Received : Type 0 where
  pub ret : Ret
  pub out : List ℕ
  pub len : ℕ
  pub from_ip : List ℕ
  pub from_port : ℕ

abbrev pub nothing : Ret → ℕ → Received
nothing r len = record { ret = r; out = []; len = len; from_ip = []; from_port = 0 }

-- recv with a packet on the queue, and after the block
unfoldable pub take_packet : ℕ → Socket → Option (Received × Socket)
take_packet len s = do
  d ← AllocQueue.read (AllocQueue.peek s.rx) s.rx
  (_, rx) ← AllocQueue.pop s.rx
  ((ok, pool), nodes) ← free s.pool d s.nodes
  let s' = record s { rx = rx; pool = pool; nodes = nodes }
  let v = s.packets d
  if not ok
      then some (nothing error len, s')
      else some (
        record {
          ret = success;
          out = take (if ltb len v.len then len else v.len) v.buff;
          len = v.len;
          from_ip = v.ip;
          from_port = v.port;
        },
        s',
      )

-- recv up to its return, where it blocks the task that is dispatched
unfoldable pub recv : ℕ → Socket → Sched → Option (Received × Socket × Sched)
recv len s t =
    if AllocQueue.peek s.rx == null
    then elim s.waiting [
      | some tid ↦ some (nothing error len, s, t)
      | none ↦ do
        (_, t') ← sched_block t.dispatched t
        some (nothing blocked len, record s { waiting = some t.dispatched }, t')
    ]
    else (do (r, s') ← take_packet len s; some (r, s', t))
