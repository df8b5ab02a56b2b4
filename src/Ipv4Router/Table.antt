-- ===== src/Ipv4Router/Table.antt =====
-- net/ipv4/IPv4Router.h: the routing table, a sorted queue of preallocated nodes, with the methods
-- that add and remove outgoing routes and the loop of `transmit` over its nodes.
use launch_core.Prelude.{
  ℕ, zero, suc, Bool, not, ◌&&◌, Option, none, some, ◌==◌, if◌then◌else◌, Ret, success, error,
}
use launch_core.Queue.Heap.{Ptr, null, load}
use launch_core.Queue.Simple.{iterate}
use launch_core.AllocQueue
use launch_core.AllocQueue.{AllocQueue}
use launch_core.Net.Ipv4.{valid_subnet}
use launch_core.Ipv4Router.Routes.{Route, route_sort, matches}

abbrev pub Table : Type 0
Table = AllocQueue Route

infixl 5 ◌>>=◌
abbrev ◌>>=◌ : {A B : Type 0} → Option A → (A → Option B) → Option B
none >>= f = none
some a >>= f = f a

-- add_outgoing_route
unfoldable pub add_outgoing_route : ℕ → ℕ → ℕ → Table → Option (Ret × Table)
add_outgoing_route addr subnet layer t = if not (valid_subnet subnet) then some (error, t) else (do
  let route : Route = record { addr = addr; subnet = subnet; next = layer }
  (p, t') ← AllocQueue.push_in_order route_sort route t
  if p == null then some (error, t') else some (success, t'))

-- The loop over the iterator from `it` on, up to the first route that passes the test: its address,
-- or NULL. Without fuel it is a fault.
unfoldable pub search : (Route → Bool) → ℕ → Ptr → Table → Option Ptr
search test zero it t = none
search test (suc fuel) it t = if it == null then some null else (do
  (n, _) ← load it t.heap
  (next, _) ← iterate it t.heap
  let rest = search test fuel next t
  if test n.item then some it else rest)

abbrev pub rounds : Table → ℕ
rounds t = suc (AllocQueue.size t)

abbrev pub is_route : ℕ → ℕ → Route → Bool
is_route addr subnet r = (r.addr == addr) && (r.subnet == subnet)

-- remove_outgoing_route
unfoldable pub remove_outgoing_route : ℕ → ℕ → Table → Option (Ret × Table)
remove_outgoing_route addr subnet t = do
  p ← search (is_route addr subnet) (rounds t) t.list.head t
  if p == null then some (success, t) else (do (_, t') ← AllocQueue.remove p t; some (success, t'))

-- transmit: the route that its loop leaves in `m_route`
unfoldable pub choose_route : ℕ → Table → Option (Option Route)
choose_route dst t = do
  p ← search (λ r. matches r dst) (rounds t) t.list.head t
  if p == null then some none else (do r ← AllocQueue.read p t; some (some r))
