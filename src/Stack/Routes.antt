-- ===== src/Stack/Routes.antt =====
-- The routing table that a stack sets up, and its multicast routes.
use mathlib.Core.Path.{subst}
use launch_core.Prelude.{
  ℕ, ◌≡◌, ◌≢◌, inl, inr, ◌∙◌, refl, sym, ap, true, none, some, List, [], ◌∷◌, if◌then◌else◌,
  Bool-cases, Option-cases, Ret, success, error, blocked, sleep, yield,
}
use launch_core.Queue.Heap.{Ptr}
use launch_core.Queue.Chain.{Cells}
use launch_core.Queue.Sorted.{find}
use launch_core.Hashmap.{Key, lookup, add}
use launch_core.AllocQueue.Contents.{Holds, Gives-run}
use launch_core.AllocQueue.Order.{insert, AtEnd}
use launch_core.Net.Ipv4.{ipv4_address, valid_subnet}
use launch_core.Ipv4Router.{Router, add_incoming_route, add_protocol}
use launch_core.Ipv4Router.Routes.{Route, route_sort}
use launch_core.Ipv4Router.Table.{add_outgoing_route}
use launch_core.Ipv4Router.Entries.{routes_of}
use launch_core.Ipv4Router.Changes.{Added, add_outgoing_route_lem, Ascending, insert-Ascending}
use launch_core.Stack.{Stack, Run, ◌>>?◌, add_out, add_in, add_proto, udp_proto, init}

-- A call that ends without a fault, with what holds then.
abbrev pub Sets : Run → (Ret → Stack → Type 0) → Type 0
Sets none P = ⊥
Sets (some (r, s)) P = P r s

pub weaken :
    (o : Run) {P Q : Ret → Stack → Type 0}
    → Sets o P
    → ((r : Ret) (s : Stack) → P r s → Q r s)
    → Sets o Q
weaken none h f = h
weaken (some (r, s)) h f = f r s h

-- A step and the steps after it, which run only if it returned success.
pub then-Sets :
    (o : Run) (f : Stack → Run) (P Q : Ret → Stack → Type 0)
    → Sets o P
    → ((s : Stack) → P success s → Sets (f s) Q)
    → ((r : Ret) (s : Stack) → r ≢ success → P r s → Q r s)
    → Sets (o >>? f) Q
then-Sets none f P Q h go stop = absurd h
then-Sets (some (success, s)) f P Q h go stop = go s h
then-Sets (some (error, s)) f P Q h go stop = stop error s (λ e. cc) h
then-Sets (some (blocked, s)) f P Q h go stop = stop blocked s (λ e. cc) h
then-Sets (some (sleep, s)) f P Q h go stop = stop sleep s (λ e. cc) h
then-Sets (some (yield, s)) f P Q h go stop = stop yield s (λ e. cc) h

pub success_error : success ≢ error
success_error e = cc

abbrev pub route : ℕ → ℕ → ℕ → Route
route addr subnet layer = record { addr = addr; subnet = subnet; next = layer }

pub add_out-Added :
    (s : Stack) (cs : Cells Route) (addr subnet layer : ℕ)
    → Holds s.table cs
    → AtEnd route_sort (route addr subnet layer) cs
    → Sets
        (add_out addr subnet layer s)
        (λ r s'. Added s.table cs (route addr subnet layer) r s'.table × (s'.ip ≡ s.ip))
add_out-Added s cs addr subnet layer h end =
    let (r, t, run, added) =
      Gives-run (add_outgoing_route addr subnet layer s.table) _
        (add_outgoing_route_lem h addr subnet layer end) in
    rw run (added, refl)

module _ ⦃key : Key ℕ⦄ where
  pub add_in-same :
      (s : Stack) (addr layer : ℕ)
      → Sets
          (add_in addr layer s)
          (λ r s'. (s'.table ≡ s.table) × (s'.ip.prot_num_map ≡ s.ip.prot_num_map))
  unfolding add_incoming_route
  add_in-same s addr layer = elim (Option-cases (lookup s.ip.incoming addr)) [
    | inr (_, e) ↦ rw (e, add_incoming_route) (refl, refl)
    | inl e ↦ elim (Option-cases ((add s.ip.incoming addr).0)) [
      | inl e' ↦ rw (e, e', add_incoming_route) (refl, refl)
      | inr (_, e') ↦ rw (e, e', add_incoming_route) (refl, refl)
    ]
  ]

  -- The map from layers to protocols has room for the UDP layer.
  abbrev pub HasRoom : Router → ℕ → Type 0
  HasRoom ip layer = (j : ℕ) × ((add ip.prot_num_map layer).0 ≡ some j)

  add_proto-same :
      (s : Stack) (protocol layer : ℕ)
      → HasRoom s.ip layer
      → Sets (add_proto protocol layer s) (λ r s'. s'.table ≡ s.table)
  unfolding add_protocol
  add_proto-same s protocol layer (j, room) = elim (Option-cases (lookup s.ip.prot_map protocol)) [
    | inr (_, e) ↦ rw (e, add_protocol) refl
    | inl e ↦ elim (Option-cases ((add s.ip.prot_map protocol).0)) [
      | inl e' ↦ rw (e, e', add_protocol) refl
      | inr (_, e') ↦ rw (e, e', room, add_protocol) refl
    ]
  ]

  abbrev pub local_route : Stack → Route
  local_route s = route (ipv4_address 127 0 0 1) (ipv4_address 255 0 0 0) s.lo

  abbrev pub device_route : Stack → Route
  device_route s = route s.addr s.subnet s.arp

  -- The two routes, the one with the shorter mask first.
  abbrev pub Wired : Stack → List Route → Type 0
  Wired s rs =
      (valid_subnet s.subnet ≡ true)
      × (rs ≡ (
          if route_sort (local_route s) (device_route s)
          then device_route s ∷ local_route s ∷ []
          else local_route s ∷ device_route s ∷ []))

  abbrev pub SetUp : Stack → Ret → Stack → Type 0
  SetUp s r s' =
      (cs : Cells Route) × Holds s'.table cs
      × Ascending (routes_of cs)
      × (r ≡ success → Wired s (routes_of cs))

  module _ (s : Stack) where
    halted :
        (r : Ret) (s' : Stack) (cs : Cells Route)
        → r ≢ success
        → Holds s'.table cs
        → Ascending (routes_of cs)
        → SetUp s r s'
    halted r s' cs ne h k = (cs, h, k, λ e. absurd (ne e))

    -- The steps after the routing table has both routes.
    last_steps :
        (s3 : Stack) (cs : Cells Route)
        → Holds s3.table cs
        → Ascending (routes_of cs)
        → Wired s (routes_of cs)
        → HasRoom s3.ip s.udp
        → Sets (add_in s.addr s.eth s3 >>? add_proto udp_proto s.udp) (SetUp s)
    last_steps s3 cs h k w (j, room) =
        then-Sets (add_in s.addr s.eth s3) (add_proto udp_proto s.udp)
          (λ r s'. (s'.table ≡ s3.table) × (s'.ip.prot_num_map ≡ s3.ip.prot_num_map)) (SetUp s)
          (add_in-same s3 s.addr s.eth)
          (λ s4 (same, prot).
            let go = add_proto-same s4 udp_proto s.udp (j, ap (λ m. (add m s.udp).0) prot ∙ room) in
            weaken (add_proto udp_proto s.udp s4) go
              (λ r s' e. (cs, subst (λ t. Holds t cs) (sym (e ∙ same)) h, k, λ _. w)))
          (λ r s' ne (same, _). halted r s' cs ne (subst (λ t. Holds t cs) (sym same) h) k)

    one_end : (p : Ptr) (u v : Route) → AtEnd route_sort v ((p, u) ∷ [])
    unfolding find
    one_end p u v = elim (Bool-cases (route_sort u v)) [
      | inl o ↦ inr (rw o refl)
      | inr o ↦ inl (rw o refl)
    ]

    two_routes :
        (p q : Ptr) (u v : Route)
        → routes_of (insert route_sort q v ((p, u) ∷ []))
          ≡ (if route_sort u v then v ∷ u ∷ [] else u ∷ v ∷ [])
    unfolding insert
    two_routes p q u v = elim (Bool-cases (route_sort u v)) [
      | inl o ↦ rw o refl
      | inr o ↦ rw o refl
    ]

    -- The steps after the first route.
    device_steps :
        (s2 : Stack) (p : Ptr)
        → Holds s2.table ((p, local_route s) ∷ [])
        → HasRoom s2.ip s.udp
        → Sets
            (add_out s.addr s.subnet s.arp s2 >>? λ s3.
              add_in s.addr s.eth s3 >>? λ s4. add_proto udp_proto s.udp s4)
            (SetUp s)
    device_steps s2 p h (j, room) =
        let cs : Cells Route = (p, local_route s) ∷ [] in
        then-Sets (add_out s.addr s.subnet s.arp s2)
          (λ s3. add_in s.addr s.eth s3 >>? λ s4. add_proto udp_proto s.udp s4)
          (λ r s'. Added s2.table cs (device_route s) r s'.table × (s'.ip ≡ s2.ip)) (SetUp s)
          (add_out-Added s2 cs s.addr s.subnet s.arp h (one_end p (local_route s) (device_route s)))
          (λ s3 (added, same). elim added [
            | inl (_, ok, (q, holds), _) ↦
                last_steps s3 (insert route_sort q (device_route s) cs) holds
                  (insert-Ascending q (device_route s) cs (tt, tt))
                  (ok, two_routes p q (local_route s) (device_route s))
                  (j, ap (λ ip. (add ip.prot_num_map s.udp).0) same ∙ room)
            | inr (bad, _, _) ↦ absurd (success_error bad)
          ])
          (λ r s' ne (added, _). elim added [
            | inl (ok, _, _, _) ↦ absurd (ne ok)
            | inr (_, _, e) ↦ halted r s' cs ne (subst (λ t. Holds t cs) (sym e) h) (tt, tt)
          ])

    -- On an empty routing table, and with room for the UDP layer's protocol, `init` does not fault and
    -- leaves a well-formed table with the shortest masks first; if it returns success, the mask of the
    -- device is valid and the table has just the route of 127.0.0.1 to the loopback device and that
    -- of the device to the ARP layer, the one with the shorter mask first.
    pub init-SetUp : Holds s.table [] → HasRoom s.ip s.udp → Sets (init s) (SetUp s)
    unfolding init insert find
    init-SetUp h (j, room) =
        then-Sets (add_out (ipv4_address 127 0 0 1) (ipv4_address 255 0 0 0) s.lo s) _
          (λ r s'. Added s.table [] (local_route s) r s'.table × (s'.ip ≡ s.ip)) (SetUp s)
          (add_out-Added s [] (ipv4_address 127 0 0 1) (ipv4_address 255 0 0 0) s.lo h (inl refl))
          (λ s1 (added, same). elim added [
            | inr (bad, _, _) ↦ absurd (success_error bad)
            | inl (_, _, (p, holds), _) ↦
                then-Sets (add_in (ipv4_address 127 0 0 1) s.lo s1) _
                  (λ r s'. (s'.table ≡ s1.table) × (s'.ip.prot_num_map ≡ s1.ip.prot_num_map))
                  (SetUp s) (add_in-same s1 (ipv4_address 127 0 0 1) s.lo)
                  (λ s2 (t, prot).
                    device_steps s2 p (subst (λ t. Holds t ((p, local_route s) ∷ [])) (sym t) holds)
                      (
                        j,
                        ap (λ m. (add m s.udp).0) (prot ∙ ap (λ ip. ip.prot_num_map) same) ∙ room,
                      ))
                  (λ r s' ne (t, _).
                    halted r s' ((p, local_route s) ∷ []) ne
                      (subst (λ t. Holds t ((p, local_route s) ∷ [])) (sym t) holds) (tt, tt))
          ])
          (λ r s' ne (added, _). elim added [
            | inl (ok, _, _, _) ↦ absurd (ne ok)
            | inr (_, _, e) ↦ halted r s' [] ne (subst (λ t. Holds t []) (sym e) h) tt
          ])
