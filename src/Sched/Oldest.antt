-- ===== src/Sched/Oldest.antt =====
-- The tasks at the tails of the two queues, and how they are popped.
use mathlib.Core.Path.{subst}
use launch_core.Prelude.{
  ℕ, ◌≤◌, ◌≡◌, ◌≢◌, inl, inr, ◌∙◌, refl, sym, ap, some, List, [], ◌∷◌, ◌++◌, append-nil, arith, ltb,
  length, get_elem?, get_elem?-some, Bool-cases,
}
use launch_core.Queue.Heap.{Ptr, null}
use launch_core.Queue.Chain.{Cells, Distinct-around}
use launch_core.AllocQueue
use launch_core.AllocQueue.Contents.{Gives-run, Holds, Gives, pop-Holds}
use launch_core.Sched.{TaskState, unallocated, active, sleeping, blocked, Task, Sched}
use launch_core.Sched.Cells.{occ, item_at, item_at-last}
use launch_core.Sched.Places.{Spot, StateOk, IsPlaced}
use launch_core.Sched.Settle.{own, loosen_ready, loosen_sleep}
use launch_core.Sched.Moves.{IsLoose}

item_at-occ : (q j : ℕ) (cs : Cells ℕ) → item_at q cs ≡ some j → 1 ≤ occ j cs
item_at-occ q j [] e = cc
item_at-occ q j ((r, k) ∷ cs) e = ground (arith, item_at-occ q j cs)

-- A task that is there once is at one address.
one_place :
    (p q j : ℕ) (cs : Cells ℕ)
    → occ j cs ≡ 1
    → item_at p cs ≡ some j
    → item_at q cs ≡ some j
    → p ≡ q
one_place p q j [] o e k = cc
one_place p q j ((r, l) ∷ cs) o e k =
    ground (arith, item_at-occ p j cs, item_at-occ q j cs, one_place p q j cs)

-- The location of a task that stands at `p`.
Spot-there : (cs : Cells ℕ) (j p q : ℕ) → item_at p cs ≡ some j → Spot cs j q → (q ≡ p) × (q ≢ null)
Spot-there cs j p q at (inl (_, o)) = absurd (omega (arith, o, item_at-occ p j cs at))
Spot-there cs j p q at (inr (ne, o, here)) = (one_place q p j cs o here at, ne)

asleep :
    (run i : ℕ) (st : TaskState) (r n : Ptr) (tid : ℕ)
    → n ≢ null
    → StateOk run i st r n tid
    → (r ≡ null) × (tid ≡ i) × (st ≡ sleeping)
asleep run i unallocated r n tid ne k = absurd (ne k.1)
asleep run i active r n tid ne k = absurd (ne k.0)
asleep run i sleeping r n tid ne k = (k.0, k.2, refl)
asleep run i blocked r n tid ne k = absurd (ne k.1)

queued :
    (run i : ℕ) (st : TaskState) (r n : Ptr) (tid : ℕ)
    → r ≢ null
    → StateOk run i st r n tid
    → (n ≡ null) × (tid ≡ i) × (st ≡ active)
queued run i unallocated r n tid ne k = absurd (ne k.0)
queued run i active r n tid ne k = (k.0, k.2, refl)
queued run i sleeping r n tid ne k = absurd (ne k.0)
queued run i blocked r n tid ne k = absurd (ne k.0)

tail_item :
    {q : AllocQueue.AllocQueue ℕ} (cs : Cells ℕ) (p j : ℕ)
    → Holds q (cs ++ ((p, j) ∷ []))
    → item_at p (cs ++ ((p, j) ∷ [])) ≡ some j
tail_item cs p j h = item_at-last p j cs [] (Distinct-around cs p j [] h.linked.distinct).0

-- A task on a queue is in the table.
in_table_of :
    (ts : List Task) (j p : ℕ) (cs : Cells ℕ)
    → ((k : ℕ) → length ts ≤ k → occ k cs ≡ 0)
    → item_at p cs ≡ some j
    → (t : Task) × (get_elem? ts j ≡ some t)
in_table_of ts j p cs inside at = elim (Bool-cases (ltb j (length ts))) [
  | inl o ↦ get_elem?-some ts j (ground arith)
  | inr o ↦ absurd (omega (arith, inside j (ground arith), item_at-occ p j cs at))
]

module _ {s : Sched} {rs : Cells ℕ} (cs : Cells ℕ) (p j : ℕ)
    (k : IsLoose s (length s.tasks) rs (cs ++ ((p, j) ∷ []))) where
  -- The oldest task of the sleep queue sleeps.
  pub next_sleeper :
      (t : Task) × (get_elem? s.tasks j ≡ some t)
      × (t.sleep_loc ≡ p)
      × (p ≢ null)
      × (t.ready_loc ≡ null)
      × (t.tid ≡ j)
  next_sleeper =
      let here = tail_item cs p j k.sleep in
      let (t, at) = in_table_of s.tasks j p (cs ++ ((p, j) ∷ [])) k.placed.sleep_inside here in
      let (_, spot, st) = own k.placed j t at in
      let (same, ne) = Spot-there (cs ++ ((p, j) ∷ [])) j p t.sleep_loc here spot in
      let (r, own_tid, _) = asleep s.dispatched j t.state t.ready_loc t.sleep_loc t.tid ne st in
      (t, at, same, subst (λ q. q ≢ null) same ne, r, own_tid)

  pub pop_sleeper :
      Gives (AllocQueue.pop s.sleep_q) (λ _ q. IsLoose (record s { sleep_q = q }) j rs cs)
  pop_sleeper =
      let (t, at, same, ne, r, _) = next_sleeper in
      let (_, q, run, (holds, cap, _)) =
        Gives-run (AllocQueue.pop s.sleep_q) _ (pop-Holds cs p j k.sleep) in
      let there : cs ++ ((p, j) ∷ []) ≡ cs ++ ((t.sleep_loc, j) ∷ []) =
        ap (λ a. cs ++ ((a, j) ∷ [])) (sym same) in
      let sleeps : t.sleep_loc ≢ null = subst (λ a. a ≢ null) (sym same) ne in
      rw run (record {
        ready = k.ready;
        sleep = holds;
        ready_cap = k.ready_cap;
        sleep_cap = cap ∙ k.sleep_cap;
        table = k.table;
        placed =
            subst (λ l. IsPlaced s.dispatched j s.tasks rs l) (append-nil cs)
              (loosen_sleep k.placed j t at cs [] there sleeps r);
      })

module _ {s : Sched} {ss : Cells ℕ} (cs : Cells ℕ) (p j : ℕ)
    (k : IsLoose s (length s.tasks) (cs ++ ((p, j) ∷ [])) ss) where
  -- The oldest task of the ready queue is active.
  pub next_ready :
      (t : Task) × (get_elem? s.tasks j ≡ some t)
      × (t.ready_loc ≡ p)
      × (p ≢ null)
      × (t.sleep_loc ≡ null)
      × (t.tid ≡ j)
      × (t.state ≡ active)
  next_ready =
      let here = tail_item cs p j k.ready in
      let (t, at) = in_table_of s.tasks j p (cs ++ ((p, j) ∷ [])) k.placed.ready_inside here in
      let (spot, _, st) = own k.placed j t at in
      let (same, ne) = Spot-there (cs ++ ((p, j) ∷ [])) j p t.ready_loc here spot in
      let (n, own_tid, on) = queued s.dispatched j t.state t.ready_loc t.sleep_loc t.tid ne st in
      (t, at, same, subst (λ q. q ≢ null) same ne, n, own_tid, on)

  pub pop_ready :
      Gives
        (AllocQueue.pop s.ready_q)
        (λ _ q. IsLoose (record s { ready_q = q }) j cs ss × (AllocQueue.read p q ≡ some j))
  pop_ready =
      let (t, at, same, ne, n, _, _) = next_ready in
      let (_, q, run, (holds, cap, still)) =
        Gives-run (AllocQueue.pop s.ready_q) _ (pop-Holds cs p j k.ready) in
      let there : cs ++ ((p, j) ∷ []) ≡ cs ++ ((t.ready_loc, j) ∷ []) =
        ap (λ a. cs ++ ((a, j) ∷ [])) (sym same) in
      let on : t.ready_loc ≢ null = subst (λ a. a ≢ null) (sym same) ne in
      rw run (
        record {
          ready = holds;
          sleep = k.sleep;
          ready_cap = cap ∙ k.ready_cap;
          sleep_cap = k.sleep_cap;
          table = k.table;
          placed =
              subst (λ l. IsPlaced s.dispatched j s.tasks l ss) (append-nil cs)
                (loosen_ready k.placed j t at cs [] there on n);
        },
        still,
      )
