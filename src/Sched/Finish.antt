-- ===== src/Sched/Finish.antt =====
-- sched_dispatch as a whole, and what follows the return of a task.
use mathlib.Core.Path.{subst}
use launch_core.AllocQueue.Contents.{Gives-run}
use launch_core.Prelude.{
  ℕ, ◌≡◌, ◌≢◌, ◌⊎◌, inl, inr, ◌∙◌, refl, sym, ap, true, false, Option, none, some, ◌∷◌, ◌==◌,
  length, length-set, get_elem?, Bool-cases, Ret, if◌then◌else◌, ==_iff, ne_of_test,
}
use launch_core.Queue.Heap.{Ptr, null}
use launch_core.Queue.Chain.{Cells}
use launch_core.AllocQueue
use launch_core.Sched.{
  TaskState, unallocated, active, sleeping, blocked, is_unallocated, is_active, is_error, Task,
  Sched, Call, max_num_tasks, wakeup_tasks, next_task, finish, run_task, sched_dispatch,
}
use launch_core.Sched.Places.{StateOk}
use launch_core.Sched.Settle.{own}
use launch_core.Sched.Moves.{Ends, Ends-run, IsSched, in_range, onto_ready, onto_none, from_none}
use launch_core.Sched.Calls.{sealed, own_entry}
use launch_core.Sched.Dispatch.{
  Chosen, rerun, below, Ends-map, wakeup_tasks-IsSched, next_task-Chosen,
}

-- What a task owes the scheduler when its function returns: it is still allocated and is not on the
-- ready queue, and if it failed, it is not on the sleep queue either.
abbrev pub OnReturn : Ret → Task → Type 0
OnReturn ret u =
    (is_unallocated u.state ≡ false)
    × (u.ready_loc ≡ null)
    × ((is_error ret ≡ false) ⊎ (u.sleep_loc ≡ null))

-- A task is dispatched: it is active and on no queue.
abbrev pub Running : Sched → Type 0
Running s =
    (u : Task) × (get_elem? s.tasks s.dispatched ≡ some u)
    × (u.state ≡ active)
    × (u.ready_loc ≡ null)

-- A run of the dispatched task: it keeps the invariant, stays dispatched, and returns as it owes.
abbrev pub Behaves : Sched → Ret → Sched → Type 0
Behaves s ret s' =
    IsSched s'
    × (s'.dispatched ≡ s.dispatched)
    × ((u : Task) × (get_elem? s'.tasks s.dispatched ≡ some u) × OnReturn ret u)

-- Afterwards a failed task is unallocated, one that is still active is ready again, behind all
-- others, and one that sleeps or is blocked stays so.
abbrev pub Requeued : ℕ → Ret → Task → Cells ℕ → Cells ℕ → Type 0
Requeued j ret u rs rs' =
    if is_error ret
    then rs' ≡ rs
    else if is_active u.state
    then ((loc : Ptr) × (rs' ≡ (loc, j) ∷ rs))
    else rs' ≡ rs

abbrev pub Finished : ℕ → Ret → Task → Sched → Type 0
Finished j ret u s' =
    (w : Task) × (get_elem? s'.tasks j ≡ some w)
    × (if is_error ret
        then w.state ≡ unallocated
        else (w.state ≡ u.state) × (if is_active u.state then w.ready_loc ≢ null else w ≡ u))

task_injective : {t u : Task} → some t ≡ some u → t ≡ u
task_injective e = cc

active_of : (st : TaskState) → is_active st ≡ true → st ≡ active
active_of active e = refl
active_of unallocated e = cc
active_of sleeping e = cc
active_of blocked e = cc

tid_of :
    (run i : ℕ) (st : TaskState) (r n : Ptr) (tid : ℕ)
    → is_unallocated st ≡ false
    → StateOk run i st r n tid
    → tid ≡ i
tid_of run i unallocated r n tid e k = cc
tid_of run i active r n tid e k = k.2
tid_of run i sleeping r n tid e k = k.2
tid_of run i blocked r n tid e k = k.2

module _ {s : Sched} (i : IsSched s) (j : ℕ) (u : Task) (at : get_elem? s.tasks j ≡ some u)
    (mine : s.dispatched ≡ j) where
  away :
      (m : ℕ) (t : Task)
      → m ≢ j
      → get_elem? s.tasks m ≡ some t
      → (m ≢ s.dispatched) ⊎ (is_active t.state ≡ false)
  away m t other e = inl (λ same. other (same ∙ mine))

  resting :
      is_active u.state ≡ false
      → (m : ℕ) (t : Task) → m ≢ length s.tasks
      → get_elem? s.tasks m ≡ some t
      → (m ≢ s.dispatched) ⊎ (is_active t.state ≡ false)
  resting off m t other e = elim (Bool-cases (m == j)) [
    | inl o ↦
        let same : m ≡ j = (==_iff m j).0 o in
        let eq : some t ≡ some u = sym e ∙ ap (get_elem? s.tasks) same ∙ at in
        inr (subst (λ (v : Task). is_active v.state ≡ false) (task_injective (sym eq)) off)
    | inr o ↦ away m t (ne_of_test m j o) e
  ]

  -- After the task `j` has returned as it owes, a failed task is freed, one that is still active is
  -- the newest on the ready queue, and any other stays as it is; the sleep queue is as it was, the
  -- invariant holds, and no task is dispatched.
  pub finish-IsSched :
      (ret : Ret)
      → OnReturn ret u
      → Ends (finish j ret s) (λ _ s'.
        ((i' : IsSched s') × (i'.ss ≡ i.ss) × Requeued j ret u i.rs i'.rs)
        × (s'.dispatched ≡ max_num_tasks)
        × Finished j ret u s')
  unfolding finish
  finish-IsSched ret (used, r, last) =
      let lt = in_range s.tasks j u at in
      let ok = (own i.parts.placed j u at).2 in
      let own_tid = tid_of s.dispatched j u.state u.ready_loc u.sleep_loc u.tid used ok in
      elim (Bool-cases (is_error ret)) [
        | inl failed ↦
            let off : u.sleep_loc ≡ null = elim last [ inl e ↦ cc | inr e ↦ e ] in
            let w : Task = record u { state = unallocated } in
            let k = rerun max_num_tasks away (from_none i.parts j u at r off) in
            rw (at, failed)
              (
                (
                  sealed (sym (length-set s.tasks j w)) (onto_none k lt w r off (r, off)),
                  refl,
                  refl,
                ),
                refl,
                (w, own_entry s.tasks j w lt, refl),
              )
        | inr fine ↦ elim (Bool-cases (is_active u.state)) [
          | inl on ↦
              let st = active_of u.state on in
              let off : u.sleep_loc ≡ null =
                (subst (λ t. StateOk s.dispatched j t u.ready_loc u.sleep_loc u.tid) st ok).0 in
              let k = rerun max_num_tasks away (from_none i.parts j u at r off) in
              let (loc, q, run, (ne, k')) =
                Gives-run (AllocQueue.push j s.ready_q) _ (onto_ready k lt u st off own_tid) in
              let w : Task = record u { ready_loc = loc } in
              rw (at, fine, on, run)
                (
                  (sealed (sym (length-set s.tasks j w)) k', refl, (loc, refl)),
                  refl,
                  (w, own_entry s.tasks j w lt, (refl, ne)),
                )
          | inr off ↦
              let k = rerun max_num_tasks (resting off) i.parts in
              rw (at, fine, off) ((sealed refl k, refl, refl), refl, (u, at, (refl, refl)))
        ]
      ]

undispatched :
    {s : Sched}
    → IsSched s
    → s.dispatched ≡ max_num_tasks
    → IsSched (record s { dispatched = max_num_tasks })
undispatched {s} i idle = sealed refl (
    rerun max_num_tasks
      (λ m t ne at. inl (λ same. below s.tasks m t (same ∙ idle ∙ sym i.parts.table) at)) i.parts)

run_chosen :
    (run : ℕ → ℕ → Call Ret) (s1 : Sched) (i1 : IsSched s1)
    → s1.dispatched ≡ max_num_tasks
    → (o : Option ℕ) (s2 : Sched)
    → ((j : ℕ) (t : Task)
        → o ≡ some j
        → get_elem? s2.tasks j ≡ some t
        → IsSched s2
        → Running s2
        → Ends (run t.func t.arg s2) (λ ret s'. Behaves s2 ret s'))
    → Chosen s1 i1 o s2
    → Ends (run_task run o s2) (λ _ s'. IsSched s' × (s'.dispatched ≡ max_num_tasks))
unfolding run_task
run_chosen run s1 i1 idle none s2 behaves (_, same) =
    subst (λ s. IsSched (record s { dispatched = max_num_tasks }) × (max_num_tasks ≡ max_num_tasks))
      (sym same) (undispatched i1 idle, refl)
run_chosen run s1 i1 idle (some j) s2 behaves ((_, _, _, (i2, _, _)), d, (u, at, on, off)) =
    let running : Running s2 = (u, ap (get_elem? s2.tasks) d ∙ at, on, off) in
    let (ret, s3, e3, (i3, d3, (w, w_at, owed))) =
      Ends-run (run u.func u.arg s2) _ (behaves j u refl at i2 running) in
    let w_at' : get_elem? s3.tasks j ≡ some w = ap (get_elem? s3.tasks) (sym d) ∙ w_at in
    rw (at, e3)
      (Ends-map (finish j ret s3) _ (λ _ s'. IsSched s' × (s'.dispatched ≡ max_num_tasks))
        (λ _ s' (a, b, _). (a.0, b)) (finish-IsSched i3 j w w_at' (d3 ∙ d) ret owed))

-- The task that a dispatch would run, if there is one, behaves in the state that it is run in.
abbrev pub Owes : (ℕ → ℕ → Call Ret) → Sched → Type 0
Owes run s =
    (s1 s2 : Sched) (j : ℕ) (t : Task)
    → wakeup_tasks s ≡ some (tt, s1)
    → next_task s1 ≡ some (some j, s2)
    → get_elem? s2.tasks j ≡ some t
    → IsSched s2
    → Running s2
    → Ends (run t.func t.arg s2) (λ ret s'. Behaves s2 ret s')

-- One dispatch in which the task behaves: the scheduler neither faults nor loops, its invariant holds
-- again, and no task is dispatched.
pub sched_dispatch-IsSched :
    (run : ℕ → ℕ → Call Ret) (s : Sched)
    → IsSched s
    → s.dispatched ≡ max_num_tasks
    → Owes run s
    → Ends (sched_dispatch run s) (λ _ s'. IsSched s' × (s'.dispatched ≡ max_num_tasks))
unfolding sched_dispatch
sched_dispatch-IsSched run s i idle owes =
    let (_, s1, e1, ((i1, _), d1, _)) = Ends-run (wakeup_tasks s) _ (wakeup_tasks-IsSched s i) in
    let (o, s2, e2, chosen) = Ends-run (next_task s1) _ (next_task-Chosen s1 i1 (d1 ∙ idle)) in
    rw (e1, e2)
      (run_chosen run s1 i1 (d1 ∙ idle) o s2
        (λ j t eq. owes s1 s2 j t e1 (e2 ∙ ap (λ o. some (o, s2)) eq)) chosen)
