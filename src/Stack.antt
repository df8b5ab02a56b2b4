-- ===== src/Stack.antt =====
-- net/stack/IPv4UDP/IPv4UDPStack.h: how a stack wires its layers up, its multicast addresses and its
-- sockets. A layer is the address of its object.
pub mod Routes
pub mod Multicast
mod Examples
use launch_core.Prelude.{ℕ, not, Option, none, some, ◌==◌, if◌then◌else◌, Ret, success, error}
use launch_core.Queue.Heap.{Ptr, null, Heap}
use launch_core.Pool.{Pool, alloc, free}
use launch_core.Hashmap.{Key}
use launch_core.Net.Ipv4.{ipv4_address, is_multicast}
use launch_core.Ipv4Router.{Router, add_incoming_route, remove_incoming_route, add_protocol}
use launch_core.Ipv4Router.Table.{Table, add_outgoing_route, remove_outgoing_route}
use launch_core.Udp
use launch_core.Socket.{Socket, unbind}

-- class IPv4UDPStack: the IPv4 router is `ip` with its routing table, and `sockets` is the memory of
-- the objects of the pool `socks`.
pub record Stack : Type 0 where
  pub ip : Router
  pub table : Table
  pub udp_router : Udp.Router
  pub socks : Pool
  pub sock_nodes : Heap Ptr
  pub sockets : Ptr → Socket
  pub addr : ℕ
  pub subnet : ℕ
  pub udp : ℕ
  pub arp : ℕ
  pub eth : ℕ
  pub lo : ℕ

-- A method: the code it returns and the stack after it; `none` is a fault.
abbrev pub Run : Type 0
Run = Option (Ret × Stack)

infixl 5 ◌>>=◌
abbrev ◌>>=◌ : {A B : Type 0} → Option A → (A → Option B) → Option B
none >>= f = none
some a >>= f = f a

-- `ret = ...; if(RET_SUCCESS != ret) return ret;` before the rest
infixr 6 ◌>>?◌
abbrev pub ◌>>?◌ : Run → (Stack → Run) → Run
none >>? f = none
some (success, s) >>? f = f s
some (r, s) >>? f = some (r, s)

abbrev pub add_out : ℕ → ℕ → ℕ → Stack → Run
add_out addr subnet layer s = do
  (r, t) ← add_outgoing_route addr subnet layer s.table
  some (r, record s { table = t })

-- UDP_PROTO
abbrev pub udp_proto : ℕ
udp_proto = 17

-- the mask of one address
abbrev pub host_mask : ℕ
host_mask = 4294967295

module _ ⦃key : Key ℕ⦄ where
  abbrev pub add_in : ℕ → ℕ → Stack → Run
  add_in addr layer s =
      let (r, ip) = add_incoming_route s.ip addr layer in some (r, record s { ip = ip })

  abbrev pub add_proto : ℕ → ℕ → Stack → Run
  add_proto protocol layer s = do
    (r, ip) ← add_protocol s.ip protocol layer
    some (r, record s { ip = ip })

  -- init
  unfoldable pub init : Stack → Run
  init s =
      let temp_addr = ipv4_address 127 0 0 1 in
      let temp_subnet = ipv4_address 255 0 0 0 in
      add_out temp_addr temp_subnet s.lo s >>? λ s1. add_in temp_addr s.lo s1 >>? λ s2.
      add_out s.addr s.subnet s.arp s2 >>? λ s3.
      add_in s.addr s.eth s3 >>? λ s4. add_proto udp_proto s.udp s4

  -- add_multicast
  unfoldable pub add_multicast : ℕ → Stack → Run
  add_multicast addr s =
      if not (is_multicast addr)
      then some (error, s)
      else add_out addr host_mask s.arp s >>? add_in addr s.eth

  -- remove_multicast
  unfoldable pub remove_multicast : ℕ → Stack → Run
  remove_multicast addr s = do
    (r, t) ← remove_outgoing_route addr host_mask s.table
    some (r, record s { ip = remove_incoming_route s.ip addr; table = t })

  -- free_socket
  unfoldable pub free_socket : Ptr → Stack → Option Stack
  free_socket p s = if p == null then none else do
    (_, r) ← unbind (s.sockets p) s.udp_router
    ((_, pool), nodes) ← free s.socks p s.sock_nodes
    some (record s { udp_router = r; socks = pool; sock_nodes = nodes })

-- get_socket, less the pointer to the UDP router that it stores in the socket
unfoldable pub get_socket : Stack → Option (Ptr × Stack)
get_socket s = do
  ((p, pool), nodes) ← alloc s.socks s.sock_nodes
  some (p, record s { socks = pool; sock_nodes = nodes })
