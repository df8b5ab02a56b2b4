-- ===== src/Ipv4Router/TableExamples.antt =====
-- A routing table with the route to the loopback device, and the theorems there.
use launch_core.Prelude.{
  ◌≡◌, ◌≢◌, ◌⊎◌, ◌∙◌, inl, inr, refl, sym, true, false, none, some, List, [], ◌∷◌, arith, replicate,
}
use launch_core.Queue.Heap.{Ptr, Node, node, Heap}
use launch_core.Queue.Chain.{Cells}
use launch_core.Queue.Sorted.{find}
use launch_core.Pool.{Descriptor, descriptor}
use launch_core.AllocQueue.{alloc_queue}
use launch_core.AllocQueue.Contents.{Holds, Gives, Gives-run, capacity, alloc_queue-Holds}
use launch_core.AllocQueue.Order.{insert}
use launch_core.Net.Ipv4.{valid_subnet, subnet_len}
use launch_core.Ipv4Router.Routes.{Route, matches}
use launch_core.Ipv4Router.Prefix.{AllMiss}
use launch_core.Ipv4Router.Table.{Table, add_outgoing_route, remove_outgoing_route, choose_route}
use launch_core.Ipv4Router.Entries.{routes_of}
use launch_core.Ipv4Router.Changes.{
  Added, add_outgoing_route_lem, Removed, remove_outgoing_route_lem, NoShorter,
  choose_route-shortest,
}

abbrev memory : Heap Route
memory a = some (node 0 0 (record { addr = 0; subnet = 0; next = 0 }))

abbrev nodes : Heap Ptr
nodes a = some (node 0 0 0)

abbrev descs : List Descriptor
descs = replicate 2 (descriptor 0 true)

empty : (t : Table) × (alloc_queue 9 descs 2 memory nodes ≡ some t) × Holds t [] × (capacity t ≡ 2)
empty =
    alloc_queue-Holds 9 descs 2 memory nodes refl (omega arith) (λ a _ _. (memory_at, refl))
      (λ a _ _. (node 0 0 0, refl))
  where
    memory_at : Node Route
    memory_at = node 0 0 (record { addr = 0; subnet = 0; next = 0 })

-- 127.0.0.1 with the mask 255.0.0.0
abbrev local_route : Route
local_route = record { addr = 2130706433; subnet = 4278190080; next = 5 }

first_route :
    Gives (add_outgoing_route 2130706433 4278190080 5 empty.0) (Added empty.0 [] local_route)
unfolding find
first_route = add_outgoing_route_lem empty.2 2130706433 4278190080 5 (inl refl)

is_valid : valid_subnet 4278190080 ≡ true
unfolding valid_subnet
is_valid = refl

clash : true ≢ false
clash e = cc

-- The table with that route.
one : (t : Table) × (p : Ptr) × Holds t ((p, local_route) ∷ [])
unfolding insert
one =
    let (r, t, _, added) =
      Gives-run (add_outgoing_route 2130706433 4278190080 5 empty.0) _ first_route in
    elim added [
      | inl (_, _, (p, h), _) ↦ (t, p, h)
      | inr (_, inl bad, _) ↦ absurd (clash (sym is_valid ∙ bad))
      | inr (_, inr full, _) ↦ absurd (omega (arith, full, empty.3))
    ]

abbrev cells : Cells Route
cells = (one.1, local_route) ∷ []

remove_outgoing_route_lem_example :
    Gives (remove_outgoing_route 2130706433 4278190080 one.0) (Removed one.2 2130706433 4278190080)
remove_outgoing_route_lem_example = remove_outgoing_route_lem one.2 2130706433 4278190080

choose_route-shortest_example :
    ((choose_route 2130706434 one.0 ≡ some none) × AllMiss (routes_of cells) 2130706434)
    ⊎ ((v : Route) × (choose_route 2130706434 one.0 ≡ some (some v))
        × (matches v 2130706434 ≡ true)
        × NoShorter (subnet_len v.subnet) (routes_of cells) 2130706434)
choose_route-shortest_example = choose_route-shortest 2130706434 one.2 (tt, tt)
