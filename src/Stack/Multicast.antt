-- ===== src/Stack/Multicast.antt =====
-- The multicast addresses of a stack.
use mathlib.Core.Path.{subst}
use launch_core.Prelude.{
  ℕ, zero, suc, ◌≤◌, ◌≡◌, ◌≢◌, ◌⊎◌, inl, inr, ◌∙◌, refl, sym, ap, Bool, true, false, ◌&&◌, [], ◌∷◌,
  ◌++◌, ◌==◌, arith, length, length-append, Bool-cases, le_test, Ret, success, error,
}
use launch_core.Queue.Heap.{Ptr, null}
use launch_core.Queue.Chain.{Cells}
use launch_core.Queue.Sorted.{find}
use launch_core.Hashmap.{Key}
use launch_core.AllocQueue.Contents.{Holds, Gives-run, capacity}
use launch_core.AllocQueue.Order.{insert}
use launch_core.Net.Ipv4.{is_multicast, valid_subnet, subnet_len, subnet_len_loop, bit}
use launch_core.Ipv4Router.Routes.{Route, route_sort}
use launch_core.Ipv4Router.Table.{Table, is_route, remove_outgoing_route}
use launch_core.Ipv4Router.Entries.{routes_of, Misses}
use launch_core.Ipv4Router.Changes.{Added, remove_outgoing_route_lem}
use launch_core.Stack.{Stack, add_out, add_in, host_mask, add_multicast, remove_multicast}
use launch_core.Stack.Routes.{
  Sets, weaken, success_error, route, then-Sets, add_out-Added, add_in-same,
}

subnet_len_loop-le : (s i n : ℕ) → subnet_len_loop s i n ≤ 32
unfolding subnet_len_loop
subnet_len_loop-le s i zero = omega arith
subnet_len_loop-le s i (suc n) = elim (Bool-cases (bit s i)) [
  | inl o ↦ rw o (omega arith)
  | inr o ↦ rw o (subnet_len_loop-le s (suc i) n)
]

host_len : subnet_len host_mask ≡ 32
unfolding subnet_len
host_len = refl

host_valid : valid_subnet host_mask ≡ true
unfolding valid_subnet
host_valid = refl

-- A host's route goes behind all others.
no_later : (addr layer : ℕ) (u : Route) → route_sort u (route addr host_mask layer) ≡ false
unfolding subnet_len
no_later addr layer u =
    rw host_len (le_test (subnet_len u.subnet) 32 (subnet_len_loop-le u.subnet 0 32))

find-host :
    (addr layer : ℕ) (cs : Cells Route) → find route_sort (route addr host_mask layer) cs ≡ null
unfolding find
find-host addr layer [] = refl
find-host addr layer ((p, u) ∷ cs) = rw (no_later addr layer u) (find-host addr layer cs)

insert-host :
    (addr layer : ℕ) (p : Ptr) (cs : Cells Route)
    → insert route_sort p (route addr host_mask layer) cs
      ≡ cs ++ ((p, route addr host_mask layer) ∷ [])
unfolding insert
insert-host addr layer p [] = refl
insert-host addr layer p ((q, u) ∷ cs) =
    rw (no_later addr layer u) (ap (λ l. (q, u) ∷ l) (insert-host addr layer p cs))

-- The host's route is the last of the table; or there was no room, or the address is of another
-- class, and the table is as it was.
abbrev pub Joined : ℕ → Stack → Cells Route → Ret → Stack → Type 0
Joined addr s cs r s' =
    ((is_multicast addr ≡ true)
      × ((p : Ptr) × Holds s'.table (cs ++ ((p, route addr host_mask s.arp) ∷ []))))
    ⊎ ((r ≡ error)
        × ((is_multicast addr ≡ false) ⊎ (length cs ≡ capacity s.table))
        × (s'.table ≡ s.table))

clash : true ≢ false
clash e = cc

-- The only node that passes a test is the last.
only_last :
    (test : Route → Bool) (cs bs ds : Cells Route) (q p : Ptr) (u v : Route)
    → Misses test (routes_of cs)
    → test v ≡ true
    → cs ++ ((q, u) ∷ []) ≡ bs ++ (p, v) ∷ ds
    → bs ++ ds ≡ cs
only_last test [] [] ds q p u v m hit e = cc
only_last test [] (b ∷ bs) ds q p u v m hit e =
    absurd (omega (arith, ap length e, length-append bs ((p, v) ∷ ds)))
only_last test (c ∷ cs) [] ds q p u v m hit e =
    let same : c.1 ≡ v = cc in absurd (clash (sym hit ∙ ap test (sym same) ∙ m.0))
only_last test (c ∷ cs) (b ∷ bs) ds q p u v m hit e =
    let head : b ≡ c = cc in
    let tail : cs ++ ((q, u) ∷ []) ≡ bs ++ (p, v) ∷ ds = cc in
    let rest = only_last test cs bs ds q p u v m.1 hit tail in cc

not_missed :
    (test : Route → Bool) (bs ds : Cells Route) (q : Ptr) (u : Route)
    → test u ≡ true
    → Misses test (routes_of (bs ++ (q, u) ∷ ds))
    → true ≡ false
not_missed test [] ds q u hit m = sym hit ∙ m.0
not_missed test (c ∷ bs) ds q u hit m = not_missed test bs ds q u hit m.1

both_equal : (a b c d : ℕ) → a ≡ b → c ≡ d → ((a == b) && (c == d)) ≡ true
both_equal a b c d e f = ground arith

module _ ⦃key : Key ℕ⦄ (s : Stack) {cs : Cells Route} (h : Holds s.table cs) where
  -- `add_multicast` on a well-formed table does not fault: the route of a multicast address is put
  -- behind all others if there is room, and it stays there even if the address gets no incoming
  -- route; without room, or for another address, the call returns an error and the table stays.
  pub add_multicast-Joined : (addr : ℕ) → Sets (add_multicast addr s) (Joined addr s cs)
  unfolding add_multicast
  add_multicast-Joined addr = elim (Bool-cases (is_multicast addr)) [
    | inr other ↦ rw other (inr (refl, inl other, refl))
    | inl multi ↦
        let r : Route = route addr host_mask s.arp in
        let joined : (p : Ptr) (t : Table)
            → Holds t (insert route_sort p r cs)
            → Holds t (cs ++ ((p, r) ∷ [])) =
          λ p t k. subst (Holds t) (insert-host addr s.arp p cs) k in
        rw multi (
          then-Sets (add_out addr host_mask s.arp s) (add_in addr s.eth)
            (λ r' s'. Added s.table cs r r' s'.table × (s'.ip ≡ s.ip)) (Joined addr s cs)
            (add_out-Added s cs addr host_mask s.arp h (inl (find-host addr s.arp cs)))
            (λ s1 (added, _). elim added [
              | inr (bad, _, _) ↦ absurd (success_error bad)
              | inl (_, _, (p, k), _) ↦
                  let keep : (r' : Ret) (s' : Stack)
                      → (s'.table ≡ s1.table) × (s'.ip.prot_num_map ≡ s1.ip.prot_num_map)
                      → Joined addr s cs r' s' =
                    λ r' s' (e, _). inl (
                      multi,
                      (p, subst (λ t. Holds t (cs ++ ((p, r) ∷ []))) (sym e) (joined p s1.table k)),
                    ) in
                  weaken (add_in addr s.eth s1) (add_in-same s1 addr s.eth) keep
            ])
            (λ r' s' ne (added, _). elim added [
              | inl (ok, _, _, _) ↦ absurd (ne ok)
              | inr (e, inl bad, _) ↦ absurd (clash (sym host_valid ∙ bad))
              | inr (e, inr full, same) ↦ inr (e, inr full, same)
            ]))
  ]

  -- A multicast address that is added, where the table has no route for it, and removed again leaves
  -- the table with the routes that it had.
  pub remove_multicast-add_multicast :
      (addr : ℕ)
      → Misses (is_route addr host_mask) (routes_of cs)
      → Sets
          (add_multicast addr s)
          (λ _ s'. Sets (remove_multicast addr s') (λ r s''. (r ≡ success) × Holds s''.table cs))
  unfolding remove_multicast
  remove_multicast-add_multicast addr m =
      weaken (add_multicast addr s) (add_multicast-Joined addr) (λ r s' joined. elim joined [
        | inl (_, (p, k)) ↦
            removed s' (cs ++ ((p, route addr host_mask s.arp) ∷ [])) k
              (λ bs q v ds e hit.
                only_last (is_route addr host_mask) cs bs ds p q (route addr host_mask s.arp) v m
                  hit e)
              (λ miss. absurd (
                clash (
                  not_missed (is_route addr host_mask) cs [] p (route addr host_mask s.arp)
                    (both_equal addr addr host_mask host_mask refl refl) miss)))
        | inr (_, _, e) ↦
            removed s' cs (subst (λ t. Holds t cs) (sym e) h)
              (λ bs q v ds e hit. absurd (
                clash (
                  not_missed (is_route addr host_mask) bs ds q v hit
                    (subst (λ l. Misses (is_route addr host_mask) (routes_of l)) e m))))
              (λ _. refl)
      ])
    where
      removed :
          (s' : Stack) (as' : Cells Route)
          → Holds s'.table as'
          → ((bs : Cells Route) (q : Ptr) (v : Route) (ds : Cells Route)
              → as' ≡ bs ++ (q, v) ∷ ds
              → is_route addr host_mask v ≡ true
              → bs ++ ds ≡ cs)
          → (Misses (is_route addr host_mask) (routes_of as') → as' ≡ cs)
          → Sets (remove_multicast addr s') (λ r s''. (r ≡ success) × Holds s''.table cs)
      removed s' as' k there gone =
          let (r, t, run, (ok, left)) =
            Gives-run (remove_outgoing_route addr host_mask s'.table) _
              (remove_outgoing_route_lem k addr host_mask) in
          let holds : Holds t cs = elim left [
            | inl (e, miss) ↦ subst (Holds t) (gone miss) (subst (λ u. Holds u as') (sym e) k)
            | inr (bs, q, v, ds, e, a, b, _, keep, _) ↦
                subst (Holds t) (there bs q v ds e (both_equal v.addr addr v.subnet host_mask a b))
                  keep
          ] in
          rw run (ok, holds)
