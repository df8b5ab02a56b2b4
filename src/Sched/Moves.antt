-- ===== src/Sched/Moves.antt =====
-- The scheduler's invariant, and the moves of one task between its queues.
use mathlib.Core.Path.{subst}
use launch_core.Prelude.{
  ℕ, zero, suc, ◌<◌, ◌≡◌, ◌≢◌, inl, ◌∙◌, refl, sym, Bool, Option, none, some, List, [], ◌∷◌, ◌++◌,
  arith, length, length-set, get_elem?, set,
}
use launch_core.Queue.Heap.{null}
use launch_core.Queue.Chain.{Cells}
use launch_core.AllocQueue
use launch_core.AllocQueue.{AllocQueue}
use launch_core.AllocQueue.Contents.{Gives-run, Holds, Gives, capacity, push-Holds, remove-Holds}
use launch_core.AllocQueue.Order.{insert, AtEnd, push_in_order-Holds}
use launch_core.Sched.{active, sleeping, Task, Sched, max_num_tasks}
use launch_core.Sched.Cells.{item_at-split}
use launch_core.Sched.Places.{Spot-item, StateOk, IsPlaced, ready_room, sleep_room}
use launch_core.Sched.Settle.{
  settle_ready, settle_sleep, settle_off, loosen_off, loosen_ready, loosen_sleep, own,
}

-- A call that ends without a fault, with what holds then.
abbrev pub Ends : {A : Type 0} → Option (A × Sched) → (A → Sched → Type 0) → Type 0
Ends none P = ⊥
Ends (some (a, s)) P = P a s

pub Ends-run :
    {A : Type 0} (o : Option (A × Sched)) (P : A → Sched → Type 0)
    → Ends o P
    → (a : A) × (s : Sched) × (o ≡ some (a, s)) × P a s
Ends-run none P y = absurd y
Ends-run (some (a, s)) P y = (a, s, refl, y)

-- The two queues hold the tasks `rs` and `ss`, and all tasks but `loose` are in place.
pub record IsLoose (s : Sched) (loose : ℕ) (rs ss : Cells ℕ) : Type 0 where
  pub ready : Holds s.ready_q rs
  pub sleep : Holds s.sleep_q ss
  pub ready_cap : capacity s.ready_q ≡ max_num_tasks
  pub sleep_cap : capacity s.sleep_q ≡ max_num_tasks
  pub table : length s.tasks ≡ max_num_tasks
  pub placed : IsPlaced s.dispatched loose s.tasks rs ss

-- The scheduler's invariant: its queues are well linked, and every task is on at most one of them,
-- at most once, as its state and its two locations say.
pub record IsSched (s : Sched) : Type 0 where
  pub rs : Cells ℕ
  pub ss : Cells ℕ
  pub parts : IsLoose s (length s.tasks) rs ss

pub in_range : (ts : List Task) (i : ℕ) (t : Task) → get_elem? ts i ≡ some t → i < length ts
in_range [] i t e = cc
in_range (u ∷ ts) zero t e = omega arith
in_range (u ∷ ts) (suc i) t e = omega (arith, in_range ts i t e)

-- A loose task is put on the ready queue.
module _ {s : Sched} {i : ℕ} {rs ss : Cells ℕ} (k : IsLoose s i rs ss)
    (lt : i < length s.tasks) where
  pub onto_ready :
      (v : Task)
      → v.state ≡ active
      → v.sleep_loc ≡ null
      → v.tid ≡ i
      → Gives (AllocQueue.push i s.ready_q) (λ loc q.
        (loc ≢ null)
        × IsLoose
            (record s { tasks = set s.tasks i (record v { ready_loc = loc }); ready_q = q })
            (length s.tasks)
            ((loc, i) ∷ rs)
            ss)
  onto_ready v on off own_tid =
      let (loc, q, run, (ne, fresh, holds, cap)) =
        Gives-run (AllocQueue.push i s.ready_q) _
          (push-Holds k.ready i (omega (arith, ready_room k.placed lt, k.ready_cap, k.table))) in
      let u : Task = record v { ready_loc = loc } in
      let ok : StateOk s.dispatched i v.state loc v.sleep_loc v.tid =
        subst (λ st. StateOk s.dispatched i st loc v.sleep_loc v.tid) (sym on)
          (off, inl ne, own_tid) in
      rw run (
        ne,
        record {
          ready = holds;
          sleep = k.sleep;
          ready_cap = cap ∙ k.ready_cap;
          sleep_cap = k.sleep_cap;
          table = length-set s.tasks i u ∙ k.table;
          placed = settle_ready k.placed lt u fresh ne off ok;
        },
      )

  -- A loose task is put on the sleep queue, where it belongs at an end of it.
  pub onto_sleep :
      (sort : ℕ → ℕ → Bool) (v : Task)
      → v.state ≡ sleeping
      → v.ready_loc ≡ null
      → v.tid ≡ i
      → AtEnd sort i ss
      → Gives (AllocQueue.push_in_order sort i s.sleep_q) (λ loc q.
        (loc ≢ null)
        × IsLoose
            (record s { tasks = set s.tasks i (record v { sleep_loc = loc }); sleep_q = q })
            (length s.tasks)
            rs
            (insert sort loc i ss))
  onto_sleep sort v on off own_tid end =
      let (loc, q, run, (ne, fresh, holds, cap)) =
        Gives-run (AllocQueue.push_in_order sort i s.sleep_q) _ (
          push_in_order-Holds sort k.sleep i
            (omega (arith, sleep_room k.placed lt, k.sleep_cap, k.table)) end) in
      let u : Task = record v { sleep_loc = loc } in
      let ok : StateOk s.dispatched i v.state v.ready_loc loc v.tid =
        subst (λ st. StateOk s.dispatched i st v.ready_loc loc v.tid) (sym on) (off, ne, own_tid) in
      rw run (
        ne,
        record {
          ready = k.ready;
          sleep = holds;
          ready_cap = k.ready_cap;
          sleep_cap = cap ∙ k.sleep_cap;
          table = length-set s.tasks i u ∙ k.table;
          placed = settle_sleep k.placed lt sort u fresh ne off ok;
        },
      )

  -- A loose task is left on no queue.
  pub onto_none :
      (u : Task)
      → u.ready_loc ≡ null
      → u.sleep_loc ≡ null
      → StateOk s.dispatched i u.state u.ready_loc u.sleep_loc u.tid
      → IsLoose (record s { tasks = set s.tasks i u }) (length s.tasks) rs ss
  onto_none u r n ok = record {
    ready = k.ready;
    sleep = k.sleep;
    ready_cap = k.ready_cap;
    sleep_cap = k.sleep_cap;
    table = length-set s.tasks i u ∙ k.table;
    placed = settle_off k.placed lt u r n ok;
  }

-- A task leaves the queue that it is on.
module _ {s : Sched} {rs ss : Cells ℕ} (k : IsLoose s (length s.tasks) rs ss) (i : ℕ) (t : Task)
    (at : get_elem? s.tasks i ≡ some t) where
  pub from_ready :
      t.ready_loc ≢ null
      → t.sleep_loc ≡ null
      → Gives
          (AllocQueue.remove t.ready_loc s.ready_q)
          (λ _ q. (cs : Cells ℕ) × IsLoose (record s { ready_q = q }) i cs ss)
  from_ready ne off =
      let (r, _, _) = own k.placed i t at in
      let (cs, ds, e) = item_at-split t.ready_loc i rs (Spot-item rs i t.ready_loc r ne) in
      let (_, q, run, (holds, cap)) =
        Gives-run (AllocQueue.remove t.ready_loc s.ready_q) _
          (remove-Holds cs t.ready_loc i ds (subst (Holds s.ready_q) e k.ready)) in
      rw run (
        cs ++ ds,
        record {
          ready = holds;
          sleep = k.sleep;
          ready_cap = cap ∙ k.ready_cap;
          sleep_cap = k.sleep_cap;
          table = k.table;
          placed = loosen_ready k.placed i t at cs ds e ne off;
        },
      )

  pub from_sleep :
      t.sleep_loc ≢ null
      → t.ready_loc ≡ null
      → Gives
          (AllocQueue.remove t.sleep_loc s.sleep_q)
          (λ _ q. (cs : Cells ℕ) × IsLoose (record s { sleep_q = q }) i rs cs)
  from_sleep ne off =
      let (_, r, _) = own k.placed i t at in
      let (cs, ds, e) = item_at-split t.sleep_loc i ss (Spot-item ss i t.sleep_loc r ne) in
      let (_, q, run, (holds, cap)) =
        Gives-run (AllocQueue.remove t.sleep_loc s.sleep_q) _
          (remove-Holds cs t.sleep_loc i ds (subst (Holds s.sleep_q) e k.sleep)) in
      rw run (
        cs ++ ds,
        record {
          ready = k.ready;
          sleep = holds;
          ready_cap = k.ready_cap;
          sleep_cap = cap ∙ k.sleep_cap;
          table = k.table;
          placed = loosen_sleep k.placed i t at cs ds e ne off;
        },
      )

  pub from_none : t.ready_loc ≡ null → t.sleep_loc ≡ null → IsLoose s i rs ss
  from_none r n = record {
    ready = k.ready;
    sleep = k.sleep;
    ready_cap = k.ready_cap;
    sleep_cap = k.sleep_cap;
    table = k.table;
    placed = loosen_off k.placed i t at r n;
  }
