-- ===== src/Sched/Dispatch.antt =====
-- _sched_wakeup_tasks and sched_dispatch: the loop ends, sleepers whose time has come are woken, and
-- the oldest ready task is run.
use mathlib.Core.Path.{subst}
use launch_core.Prelude.{
  ℕ, zero, suc, ◌<◌, ◌≡◌, ◌≢◌, ◌⊎◌, inl, inr, ◌∙◌, refl, sym, ap, true, false, Option, none, some,
  List, [], ◌∷◌, ◌++◌, arith, ◌==◌, leb, length, length-append, length-set, get_elem?, set,
  Bool-cases,
}
use launch_core.Queue.Heap.{Ptr, null}
use launch_core.Queue.Chain.{Cells, snoc-cases}
use launch_core.Queue.Simple.{num_nodes}
use launch_core.Pool.State.{IsQueue-last}
use launch_core.AllocQueue
use launch_core.AllocQueue.Contents.{Gives-run, Holds, peek_oldest, pop_empty}
use launch_core.Sched.{
  active, is_active, Task, Sched, max_num_tasks, now, tick, wakeup_loop, wakeup_tasks, next_task,
}
use launch_core.Sched.Places.{StateOk, IsPlaced-rerun, in_table}
use launch_core.Sched.Moves.{Ends, IsLoose, IsSched, in_range, onto_ready, onto_none}
use launch_core.Sched.Oldest.{next_sleeper, pop_sleeper, next_ready, pop_ready}
use launch_core.Sched.Calls.{sealed, own_entry}
use launch_core.Sched.Suspend.{reclock}

-- No task sleeps, or the oldest sleeper's time had not come when the clock was last read.
abbrev pub Quiet : (s : Sched) → IsSched s → Type 0
Quiet s i =
    (i.ss ≡ [])
    ⊎ ((cs : Cells ℕ) × (p : Ptr) × (j : ℕ) × (t : Task) × (c : ℕ) × (i.ss ≡ cs ++ ((p, j) ∷ []))
        × (get_elem? s.tasks j ≡ some t)
        × (s.calls ≡ suc c)
        × (s.clock c < t.wake_time))

abbrev Wakes : Sched → Sched → Type 0
Wakes s s' = ((i : IsSched s') × Quiet s' i) × (s'.dispatched ≡ s.dispatched) × (s'.clock ≡ s.clock)

not_leb : (a b : ℕ) → leb a b ≡ false → b < a
not_leb a b e = ground arith

pub nonnull_test : (p : Ptr) → p ≢ null → (p == null) ≡ false
nonnull_test p ne = ground arith

pub Ends-map :
    {A : Type 0} (o : Option (A × Sched)) (P Q : A → Sched → Type 0)
    → ((a : A) (s : Sched) → P a s → Q a s)
    → Ends o P
    → Ends o Q
Ends-map none P Q f e = e
Ends-map (some (a, s)) P Q f e = f a s e

-- With no sleeper the loop ends.
wake_none :
    (fuel : ℕ) (s : Sched) (i : IsSched s)
    → i.ss ≡ []
    → 0 < fuel
    → Ends (wakeup_loop fuel s) (λ _ s'. Wakes s s')
unfolding wakeup_loop
wake_none zero s i e lt = absurd (omega arith)
wake_none (suc fuel) s i e lt =
    let (peeked, _) = pop_empty (subst (Holds s.sleep_q) e i.parts.sleep) in
    rw peeked ((i, inl e), refl, refl)

-- With the oldest sleeper not due it ends too.
wake_later :
    {s : Sched} (cs : Cells ℕ) (p j : ℕ) (t : Task) (fuel : ℕ) (i : IsSched s)
    → i.ss ≡ cs ++ ((p, j) ∷ [])
    → get_elem? s.tasks j ≡ some t
    → leb t.wake_time (now s) ≡ false
    → Ends (wakeup_loop (suc fuel) s) (λ _ s'. Wakes s s')
unfolding wakeup_loop
wake_later {s} cs p j t fuel i e at later =
    let holds = subst (Holds s.sleep_q) e i.parts.sleep in
    let (peeked, read_p) = peek_oldest cs p j holds in
    let (ne, _) = IsQueue-last cs p j holds.linked in
    rw (peeked, nonnull_test p ne, read_p, at, later)
      (
        (
          record { rs = i.rs; ss = i.ss; parts = reclock i.parts },
          inr (cs, p, j, t, s.calls, e, at, refl, not_leb t.wake_time (now s) later),
        ),
        refl,
        refl,
      )

-- One round of the loop wakes the oldest sleeper, and goes on.
wake_one :
    {s : Sched} {rs : Cells ℕ} (cs : Cells ℕ) (p j : ℕ) (t : Task) (fuel : ℕ)
    (P : Unit {0} → Sched → Type 0)
    → IsLoose s (length s.tasks) rs (cs ++ ((p, j) ∷ []))
    → get_elem? s.tasks j ≡ some t
    → p ≢ null
    → t.tid ≡ j
    → leb t.wake_time (now s) ≡ true
    → ((s' : Sched) (loc : Ptr)
        → IsLoose s' (length s'.tasks) ((loc, j) ∷ rs) cs
        → (s'.dispatched ≡ s.dispatched) × (s'.clock ≡ s.clock)
        → Ends (wakeup_loop fuel s') P)
    → Ends (wakeup_loop (suc fuel) s) P
unfolding wakeup_loop
wake_one {s} {rs} cs p j t fuel P k at ne own_tid due more =
    let (peeked, read_p) = peek_oldest cs p j k.sleep in
    let (_, q, run, k1) = Gives-run (AllocQueue.pop s.sleep_q) _ (pop_sleeper cs p j k) in
    let v : Task = record t { state = active; sleep_loc = null } in
    let (loc, r, run', (r_ne, k2)) =
      Gives-run (AllocQueue.push j s.ready_q) _
        (onto_ready k1 (in_range s.tasks j t at) v refl refl own_tid) in
    let u : Task = record v { ready_loc = loc } in
    let s' : Sched = record (tick s) { tasks = set s.tasks j u; ready_q = r; sleep_q = q } in
    rw (peeked, nonnull_test p ne, read_p, at, due, run, run')
      (more s' loc
        (subst (λ n. IsLoose s' n ((loc, j) ∷ rs) cs) (sym (length-set s.tasks j u)) (reclock k2))
        (refl, refl))

-- The loop ends within one round for each sleeper and one more.
wakeup_loop-IsSched :
    (fuel : ℕ) (s : Sched) (i : IsSched s)
    → length i.ss < fuel
    → Ends (wakeup_loop fuel s) (λ _ s'. Wakes s s')
wakeup_loop-IsSched zero s i lt = absurd (omega arith)
wakeup_loop-IsSched (suc fuel) s i lt = elim (snoc-cases i.ss) [
  | inl e ↦ wake_none (suc fuel) s i e (omega arith)
  | inr (cs, p, j, e) ↦
      let k = subst (IsLoose s (length s.tasks) i.rs) e i.parts in
      let (t, at, _, ne, _, own_tid) = next_sleeper cs p j k in
      elim (Bool-cases (leb t.wake_time (now s))) [
        | inl due ↦
            wake_one cs p j t fuel (λ _ s'. Wakes s s') k at ne own_tid due
              (λ s' loc k' same.
                let rest =
                  wakeup_loop-IsSched fuel s' (record { rs = (loc, j) ∷ i.rs; ss = cs; parts = k' })
                    (omega (arith, lt, ap length e, length-append cs ((p, j) ∷ []))) in
                Ends-map (wakeup_loop fuel s') (λ _ s''. Wakes s' s'') (λ _ s''. Wakes s s'')
                  (λ _ s'' (w, d, c). (w, d ∙ same.0, c ∙ same.1)) rest)
        | inr later ↦ wake_later cs p j t fuel i e at later
      ]
]

-- `_sched_wakeup_tasks` never faults and ends within one round more than there are sleepers. Then no
-- task sleeps, or the oldest sleeper's time had not come when the clock was last read; the invariant
-- holds, and the dispatched task and the clock are the same.
pub wakeup_tasks-IsSched :
    (s : Sched) (i : IsSched s)
    → Ends (wakeup_tasks s) (λ _ s'.
      ((i' : IsSched s') × Quiet s' i') × (s'.dispatched ≡ s.dispatched) × (s'.clock ≡ s.clock))
unfolding wakeup_tasks AllocQueue.size num_nodes
wakeup_tasks-IsSched s i =
    wakeup_loop-IsSched (suc s.sleep_q.list.size) s i (omega (arith, i.parts.sleep.linked.count))

pub below : (ts : List Task) (m : ℕ) (t : Task) → m ≡ length ts → get_elem? ts m ≡ some t → ⊥
below ts m t e at = in_table ts m t at e

-- The invariant with another task dispatched.
pub rerun :
    {s : Sched} {n : ℕ} {rs ss : Cells ℕ} (run' : ℕ)
    → ((i : ℕ) (t : Task)
        → i ≢ n
        → get_elem? s.tasks i ≡ some t
        → (i ≢ s.dispatched) ⊎ (is_active t.state ≡ false))
    → IsLoose s n rs ss
    → IsLoose (record s { dispatched = run' }) n rs ss
rerun run' away k = record {
  ready = k.ready;
  sleep = k.sleep;
  ready_cap = k.ready_cap;
  sleep_cap = k.sleep_cap;
  table = k.table;
  placed = IsPlaced-rerun run' away k.placed;
}

-- What is dispatched: the task that has been ready the longest, if any is.
abbrev pub Chosen : (s : Sched) → IsSched s → Option ℕ → Sched → Type 0
Chosen s i none s' = (i.rs ≡ []) × (s' ≡ s)
Chosen s i (some j) s' =
    ((cs : Cells ℕ) × (p : Ptr) × (i.rs ≡ cs ++ ((p, j) ∷ []))
      × ((i' : IsSched s') × (i'.rs ≡ cs) × (i'.ss ≡ i.ss)))
    × (s'.dispatched ≡ j)
    × ((u : Task) × (get_elem? s'.tasks j ≡ some u) × (u.state ≡ active) × (u.ready_loc ≡ null))

next_of :
    {s : Sched} (cs : Cells ℕ) (p j : ℕ) (ss : Cells ℕ) (i : IsSched s)
    → s.dispatched ≡ max_num_tasks
    → i.rs ≡ cs ++ ((p, j) ∷ [])
    → Ends (next_task s) (λ o s'. Chosen s i o s')
unfolding next_task
next_of {s} cs p j ss i idle e =
    let k = subst (λ l. IsLoose s (length s.tasks) l i.ss) e i.parts in
    let (peeked, _) = peek_oldest cs p j k.ready in
    let (t, at, _, ne, n, own_tid, on) = next_ready cs p j k in
    let (_, q, run, (k1, read_p)) = Gives-run (AllocQueue.pop s.ready_q) _ (pop_ready cs p j k) in
    let lt = in_range s.tasks j t at in
    let u : Task = record t { ready_loc = null } in
    let s1 : Sched = record s { ready_q = q; dispatched = t.tid } in
    let k2 : IsLoose s1 j cs i.ss =
      rerun t.tid
        (λ m v other m_at. inl (λ same. below s.tasks m v (same ∙ idle ∙ sym i.parts.table) m_at))
        k1 in
    let ok : StateOk s1.dispatched j t.state null t.sleep_loc t.tid =
      subst (λ st. StateOk t.tid j st null t.sleep_loc t.tid) (sym on)
        (n, inr (sym own_tid), own_tid) in
    rw (peeked, nonnull_test p ne, run, read_p, at)
      (
        (
          cs,
          p,
          e,
          (sealed (sym (length-set s.tasks j u)) (onto_none k2 lt u refl n ok), refl, refl),
        ),
        own_tid,
        (u, own_entry s.tasks j u lt, on, refl),
      )

-- With no task dispatched, the oldest ready task, if there is one, is taken off the ready queue and
-- dispatched: it is active and on no queue, the other tasks stay on theirs, and the invariant holds.
pub next_task-Chosen :
    (s : Sched) (i : IsSched s)
    → s.dispatched ≡ max_num_tasks
    → Ends (next_task s) (λ o s'. Chosen s i o s')
unfolding next_task
next_task-Chosen s i idle = elim (snoc-cases i.rs) [
  | inl e ↦
      let (peeked, _) = pop_empty (subst (Holds s.ready_q) e i.parts.ready) in rw peeked (e, refl)
  | inr (cs, p, j, e) ↦ next_of cs p j i.ss i idle e
]
