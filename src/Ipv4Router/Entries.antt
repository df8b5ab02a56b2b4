-- ===== src/Ipv4Router/Entries.antt =====
-- The routing table as a list of routes, from the head of its queue on.
use mathlib.Core.Path.{subst}
use launch_core.Prelude.{
  ℕ, zero, suc, ◌<◌, ◌≡◌, ◌≢◌, ◌⊎◌, inl, inr, ◌∙◌, refl, sym, ap, Bool, true, false, none, some,
  List, [], ◌∷◌, ◌++◌, map, ◌==◌, arith, length, Bool-cases, null_test, nonnull,
}
use launch_core.Queue.Heap.{Ptr, null, Node, node, Heap}
use launch_core.Queue.Simple.{iterate, num_nodes}
use launch_core.Queue.Chain.{Cells, first, Seg, load-ok}
use launch_core.AllocQueue
use launch_core.AllocQueue.Contents.{Holds}
use launch_core.Ipv4Router.Routes.{Route, matches, find_route}
use launch_core.Ipv4Router.Table.{Table, search, rounds, choose_route}

abbrev pub routes_of : Cells Route → List Route
routes_of = map (λ c. c.1)

abbrev pub Misses : (Route → Bool) → List Route → Type 0
Misses test [] = Unit {0}
Misses test (r ∷ rs) = (test r ≡ false) × Misses test rs

-- A search ends without a node that passes the test, or at the first one.
abbrev pub Found : (Route → Bool) → Heap Route → Cells Route → Ptr → Type 0
Found test h cs p =
    ((p ≡ null) × Misses test (routes_of cs))
    ⊎ ((p ≢ null)
        × ((bs : Cells Route) × (n : Node Route) × (ds : Cells Route) × (cs
              ≡ bs ++ (p, n.item) ∷ ds)
            × (h p ≡ some n)
            × (test n.item ≡ true)
            × Misses test (routes_of bs)))

search-Found :
    (test : Route → Bool) (t : Table) (fuel : ℕ) (a : Ptr) (cs : Cells Route)
    → Seg t.heap a cs null
    → length cs < fuel
    → (p : Ptr) × (search test fuel (first null cs) t ≡ some p) × Found test t.heap cs p
unfolding search iterate
search-Found test t zero a cs s lt = absurd (omega (arith, lt))
search-Found test t (suc fuel) a [] s lt = (null, refl, inl (refl, tt))
search-Found test t (suc fuel) a ((q, v) ∷ cs) s lt =
    let n : Node Route = node a (first null cs) v in
    let here = load-ok t.heap q n s.0 s.1 in
    let there : (q == null) ≡ false = nonnull q s.0 in
    let (p, run, f) = search-Found test t fuel q cs s.2 (omega (arith, lt)) in
    elim (Bool-cases (test v)) [
      | inl o ↦ (q, rw (there, here, run, o) refl, inr (s.0, ([], n, cs, refl, s.1, o, tt)))
      | inr o ↦ (p, rw (there, here, run, o) refl, step o f)
    ]
  where
    step : {p : Ptr} → test v ≡ false → Found test t.heap cs p → Found test t.heap ((q, v) ∷ cs) p
    step o (inl (e, miss)) = inl (e, (o, miss))
    step o (inr (ne, (bs, n, ds, e, at, hit, miss))) =
        inr (ne, ((q, v) ∷ bs, n, ds, ap (λ l. (q, v) ∷ l) e, at, hit, (o, miss)))

-- On a well-formed table a search from the head has fuel enough.
pub search_all :
    (test : Route → Bool) {t : Table} {cs : Cells Route}
    → Holds t cs
    → (p : Ptr) × (search test (rounds t) t.list.head t ≡ some p) × Found test t.heap cs p
unfolding AllocQueue.size num_nodes
search_all test {t} {cs} i =
    subst (λ a. (p : Ptr) × (search test (rounds t) a t ≡ some p) × Found test t.heap cs p)
      (sym i.linked.head_at)
      (search-Found test t (rounds t) null cs i.linked.chain (omega (arith, i.linked.count)))

find_route-Misses :
    (rs : List Route) (dst : ℕ) → Misses (λ r. matches r dst) rs → find_route rs dst ≡ none
find_route-Misses [] dst m = refl
find_route-Misses (r ∷ rs) dst m = rw m.0 (find_route-Misses rs dst m.1)

find_route-hit :
    (bs : Cells Route) (p : Ptr) (v : Route) (ds : Cells Route) (dst : ℕ)
    → matches v dst ≡ true
    → Misses (λ r. matches r dst) (routes_of bs)
    → find_route (routes_of (bs ++ (p, v) ∷ ds)) dst ≡ some v
find_route-hit [] p v ds dst hit m = rw hit refl
find_route-hit ((q, u) ∷ bs) p v ds dst hit m = rw m.0 (find_route-hit bs p v ds dst hit m.1)

-- The loop of `transmit` over the nodes of a well-formed table ends, and takes the route that
-- `find_route` takes from the list of the table's routes.
pub choose_route-find_route :
    {t : Table} {cs : Cells Route} (dst : ℕ)
    → Holds t cs
    → choose_route dst t ≡ some (find_route (routes_of cs) dst)
unfolding choose_route AllocQueue.read
choose_route-find_route {t} {cs} dst i =
    let (p, run, f) = search_all (λ r. matches r dst) i in
    elim f [
      | inl (e, miss) ↦ rw (run, null_test p e, find_route-Misses (routes_of cs) dst miss) refl
      | inr (ne, (bs, n, ds, e, at, hit, miss)) ↦
          let found =
            ap (λ l. find_route (routes_of l) dst) e ∙ find_route-hit bs p n.item ds dst hit miss in
          rw (run, nonnull p ne, load-ok t.heap p n ne at, found) refl
    ]
