-- ===== src/Ipv4Router/Changes.antt =====
-- What adding and removing an outgoing route does to the routing table, and which route that makes
-- `transmit` take.
use mathlib.Core.Path.{subst}
use launch_core.Prelude.{
  ℕ, ◌≤◌, ◌≡◌, ◌⊎◌, inl, inr, ◌∙◌, refl, ap, true, false, ◌&&◌, Option, none, some, List, [], ◌∷◌,
  ◌++◌, ◌==◌, arith, length, Bool-cases, null_test, nonnull, lt_or_eq, Ret, success, error,
}
use launch_core.Queue.Heap.{Ptr, null}
use launch_core.Queue.Chain.{Cells}
use launch_core.Pool.Free.{alloc_none}
use launch_core.AllocQueue
use launch_core.AllocQueue.Contents.{Gives-run, Holds, Gives, capacity, remove-Holds}
use launch_core.AllocQueue.Order.{insert, AtEnd, push_in_order-Holds}
use launch_core.Net.Ipv4.{valid_subnet, subnet_len}
use launch_core.Ipv4Router.Routes.{Route, route_sort, matches, find_route}
use launch_core.Ipv4Router.Prefix.{AllMiss, find_route-first}
use launch_core.Ipv4Router.Table.{
  Table, add_outgoing_route, is_route, remove_outgoing_route, choose_route,
}
use launch_core.Ipv4Router.Entries.{routes_of, Misses, search_all, choose_route-find_route}

-- The route is in the table, where a sorted queue ought to put it; or it is refused and the table
-- is as it was.
abbrev pub Added : Table → Cells Route → Route → Ret → Table → Type 0
Added t cs route r t' =
    ((r ≡ success)
      × (valid_subnet route.subnet ≡ true)
      × ((p : Ptr) × Holds t' (insert route_sort p route cs))
      × (capacity t' ≡ capacity t))
    ⊎ ((r ≡ error) × ((valid_subnet route.subnet ≡ false) ⊎ (length cs ≡ capacity t)) × (t' ≡ t))

module _ {t : Table} {cs : Cells Route} (i : Holds t cs) where
  push_in_order_full :
      (v : Route)
      → length cs ≡ capacity t
      → AllocQueue.push_in_order route_sort v t ≡ some (null, t)
  unfolding AllocQueue.push_in_order
  push_in_order_full v full = rw (alloc_none i.pooled full)

  -- `add_outgoing_route` on a well-formed table, where the route's place in the order is at one of
  -- the ends, does not fault: a route with a valid mask is put at that place if there is room, and
  -- without room or with another mask the call is refused and the table stays as it is.
  pub add_outgoing_route_lem :
      (addr subnet layer : ℕ)
      → AtEnd route_sort (record { addr = addr; subnet = subnet; next = layer }) cs
      → Gives
          (add_outgoing_route addr subnet layer t)
          (Added t cs (record { addr = addr; subnet = subnet; next = layer }))
  unfolding add_outgoing_route
  add_outgoing_route_lem addr subnet layer end =
      let route : Route = record { addr = addr; subnet = subnet; next = layer } in
      let le : length cs ≤ capacity t = omega (arith, i.pooled.total) in
      elim (Bool-cases (valid_subnet subnet)) [
        | inr bad ↦ rw bad (inr (refl, inl bad, refl))
        | inl ok ↦ elim (lt_or_eq (length cs) (capacity t) le) [
          | inr full ↦ rw (ok, push_in_order_full route full) (inr (refl, inr full, refl))
          | inl room ↦
              let (p, t', run, (ne, _, holds, cap)) =
                Gives-run (AllocQueue.push_in_order route_sort route t) _
                  (push_in_order-Holds route_sort i route room end) in
              rw (ok, run, nonnull p ne) (inl (refl, ok, (p, holds), cap))
        ]
      ]

  -- The first route with the address and the mask is gone and the others stay; or there is none.
  abbrev pub Removed : ℕ → ℕ → Ret → Table → Type 0
  Removed addr subnet r t' =
      (r ≡ success)
      × (((t' ≡ t) × Misses (is_route addr subnet) (routes_of cs))
          ⊎ ((bs : Cells Route) × (p : Ptr) × (v : Route) × (ds : Cells Route) × (cs
                ≡ bs ++ (p, v) ∷ ds)
              × (v.addr ≡ addr)
              × (v.subnet ≡ subnet)
              × Misses (is_route addr subnet) (routes_of bs)
              × Holds t' (bs ++ ds)
              × (capacity t' ≡ capacity t)))

  -- `remove_outgoing_route` on a well-formed table returns success: it takes the first route with
  -- the address and the mask out of the table, or changes nothing if there is none.
  pub remove_outgoing_route_lem :
      (addr subnet : ℕ) → Gives (remove_outgoing_route addr subnet t) (Removed addr subnet)
  unfolding remove_outgoing_route
  remove_outgoing_route_lem addr subnet =
      let (p, run, f) = search_all (is_route addr subnet) i in
      elim f [
        | inl (e, miss) ↦ rw (run, null_test p e) (refl, inl (refl, miss))
        | inr (ne, (bs, n, ds, e, _, hit, miss)) ↦
            let (_, t', run', (holds, cap)) =
              Gives-run (AllocQueue.remove p t) _
                (remove-Holds bs p n.item ds (subst (Holds t) e i)) in
            let (a, m) = both n.item.addr addr n.item.subnet subnet hit in
            rw (run, nonnull p ne, run') (refl, inr (bs, p, n.item, ds, e, a, m, miss, holds, cap))
      ]
    where
      both : (a b c d : ℕ) → ((a == b) && (c == d)) ≡ true → (a ≡ b) × (c ≡ d)
      both a b c d e = ground arith

-- Masks of no fewer ones come later.
abbrev pub Longer : ℕ → List Route → Type 0
Longer n [] = Unit {0}
Longer n (r ∷ rs) = (n ≤ subnet_len r.subnet) × Longer n rs

abbrev pub Ascending : List Route → Type 0
Ascending [] = Unit {0}
Ascending (r ∷ rs) = Longer (subnet_len r.subnet) rs × Ascending rs

Longer-insert :
    (n : ℕ) (p : Ptr) (v : Route) (cs : Cells Route)
    → n ≤ subnet_len v.subnet
    → Longer n (routes_of cs)
    → Longer n (routes_of (insert route_sort p v cs))
unfolding insert
Longer-insert n p v [] le k = (le, tt)
Longer-insert n p v ((q, u) ∷ cs) le k = elim (Bool-cases (route_sort u v)) [
  | inl o ↦ rw o (le, k)
  | inr o ↦ rw o (k.0, Longer-insert n p v cs le k.1)
]

Longer-weaken : (m n : ℕ) (rs : List Route) → m ≤ n → Longer n rs → Longer m rs
Longer-weaken m n [] le k = tt
Longer-weaken m n (r ∷ rs) le k = (omega (arith, le, k.0), Longer-weaken m n rs le k.1)

sooner : (u v : Route) → route_sort u v ≡ true → subnet_len v.subnet ≤ subnet_len u.subnet
sooner u v e = ground arith

later : (u v : Route) → route_sort u v ≡ false → subnet_len u.subnet ≤ subnet_len v.subnet
later u v e = ground arith

-- A route that is put where `route_sort` wants it leaves the table with the shortest masks first.
pub insert-Ascending :
    (p : Ptr) (v : Route) (cs : Cells Route)
    → Ascending (routes_of cs)
    → Ascending (routes_of (insert route_sort p v cs))
unfolding insert
insert-Ascending p v [] k = (tt, tt)
insert-Ascending p v ((q, u) ∷ cs) k = elim (Bool-cases (route_sort u v)) [
  | inl o ↦
      let le = sooner u v o in
      rw o
        ((le, Longer-weaken (subnet_len v.subnet) (subnet_len u.subnet) (routes_of cs) le k.0), k)
  | inr o ↦
      rw o
        (Longer-insert (subnet_len u.subnet) p v cs (later u v o) k.0, insert-Ascending p v cs k.1)
]

-- No route of the list that matches has a mask of fewer ones than `n`.
abbrev pub NoShorter : ℕ → List Route → ℕ → Type 0
NoShorter n [] dst = Unit {0}
NoShorter n (r ∷ rs) dst = (matches r dst ≡ true → n ≤ subnet_len r.subnet) × NoShorter n rs dst

Longer-NoShorter : (n dst : ℕ) (rs : List Route) → Longer n rs → NoShorter n rs dst
Longer-NoShorter n dst [] k = tt
Longer-NoShorter n dst (r ∷ rs) k = (λ _. k.0, Longer-NoShorter n dst rs k.1)

find_route-shortest :
    (rs : List Route) (dst : ℕ) (v : Route)
    → Ascending rs
    → find_route rs dst ≡ some v
    → NoShorter (subnet_len v.subnet) rs dst
find_route-shortest [] dst v k e = tt
find_route-shortest (r ∷ rs) dst v k e = elim (Bool-cases (matches r dst)) [
  | inl o ↦
      let same : ◌≡◌ {A = Option Route} (some r) (some v) = rw o at e in
      let rv : r ≡ v = cc in
      subst (λ w. NoShorter (subnet_len w.subnet) (r ∷ rs) dst) rv
        (λ _. omega arith, Longer-NoShorter (subnet_len r.subnet) dst rs k.0)
  | inr o ↦ (λ hit. cc, find_route-shortest rs dst v k.1 (rw o at e))
]

-- On a table in the order that `add_outgoing_route` keeps, `transmit` takes, of the routes that match
-- the destination, one whose mask has the fewest ones; it finds no route only if none matches.
pub choose_route-shortest :
    {t : Table} {cs : Cells Route} (dst : ℕ)
    → Holds t cs
    → Ascending (routes_of cs)
    → ((choose_route dst t ≡ some none) × AllMiss (routes_of cs) dst)
      ⊎ ((v : Route) × (choose_route dst t ≡ some (some v))
          × (matches v dst ≡ true)
          × NoShorter (subnet_len v.subnet) (routes_of cs) dst)
choose_route-shortest {t} {cs} dst i k =
    let run = choose_route-find_route dst i in
    elim (find_route-first (routes_of cs) dst) [
      | inl (e, miss) ↦ inl (run ∙ ap some e, miss)
      | inr (_, v, _, _, _, hit, found) ↦
          inr (v, run ∙ ap some found, hit, find_route-shortest (routes_of cs) dst v k found)
    ]
