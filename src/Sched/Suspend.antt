-- ===== src/Sched/Suspend.antt =====
-- sched_block and sched_sleep keep every task in place.
use mathlib.Core.Path.{subst, fun_ext, ap₂}
use launch_core.AllocQueue.Contents.{Gives-run}
use launch_core.Prelude.{
  ℕ, ◌+◌, ◌%◌, ◌^◌, ◌<◌, ◌≡◌, ◌≢◌, ◌⊎◌, inl, inr, ◌∙◌, refl, sym, ap, false, some, List, arith,
  ◌==◌, if◌then◌else◌, length, length-set, get_elem?, get_elem?-set, set, Bool-cases, ltb,
}
use launch_core.Queue.Heap.{Ptr, null}
use launch_core.Queue.Chain.{Cells}
use launch_core.AllocQueue
use launch_core.AllocQueue.Order.{AtEnd}
use launch_core.Sched.{
  TaskState, unallocated, active, sleeping, blocked, is_unallocated, Task, Sched, entry_wake,
  wake_of, sched_sleep, sched_block, sleep_sort, now, tick, sleep_unqueue, block_unqueue,
}
use launch_core.Sched.Places.{StateOk, IsPlaced-set}
use launch_core.Sched.Moves.{
  Ends, Ends-run, IsLoose, IsSched, in_range, onto_sleep, onto_none, from_ready, from_sleep,
  from_none,
}
use launch_core.Sched.Calls.{is_null, not_null, null_test, own_entry, sealed, own_state}

-- A task that is allocated has its TID and is on at most one queue.
one_queue :
    (run i : ℕ) (st : TaskState) (r n : Ptr) (tid : ℕ)
    → is_unallocated st ≡ false
    → StateOk run i st r n tid
    → ((r ≡ null) ⊎ (n ≡ null)) × (tid ≡ i)
one_queue run i unallocated r n tid e k = cc
one_queue run i active r n tid e k = (inr k.0, k.2)
one_queue run i sleeping r n tid e k = (inl k.0, k.2)
one_queue run i blocked r n tid e k = (inl k.0, k.2)

other_null : (r n : Ptr) → r ≢ null → (r ≡ null) ⊎ (n ≡ null) → n ≡ null
other_null r n ne (inl e) = absurd (ne e)
other_null r n ne (inr e) = e

pub reclock : {s : Sched} {n : ℕ} {rs ss : Cells ℕ} → IsLoose s n rs ss → IsLoose (tick s) n rs ss
reclock k = record {
  ready = k.ready;
  sleep = k.sleep;
  ready_cap = k.ready_cap;
  sleep_cap = k.sleep_cap;
  table = k.table;
  placed = k.placed;
}

-- The table entry of a loose task may change.
IsLoose-set :
    {s : Sched} {i : ℕ} {rs ss : Cells ℕ}
    → IsLoose s i rs ss
    → (v : Task) → i < length s.tasks
    → IsLoose (record s { tasks = set s.tasks i v }) i rs ss
IsLoose-set {s} {i} k v lt = record {
  ready = k.ready;
  sleep = k.sleep;
  ready_cap = k.ready_cap;
  sleep_cap = k.sleep_cap;
  table = length-set s.tasks i v ∙ k.table;
  placed = IsPlaced-set k.placed v lt;
}

other_entry :
    (ts : List Task) (i j : ℕ) (u : Task)
    → i < length ts
    → (j == i) ≡ false
    → get_elem? (set ts i u) j ≡ get_elem? ts j
other_entry ts i j u lt e =
    let o : (i == j) ≡ false = ground arith in get_elem?-set ts i j u lt ∙ rw o

-- The order of the sleep queue goes by the wake times.
sleep_sort-eq :
    (ts us : List Task) → ((j : ℕ) → wake_of ts j ≡ wake_of us j) → sleep_sort ts ≡ sleep_sort us
unfolding sleep_sort
sleep_sort-eq ts us e = fun_ext (λ a. fun_ext (λ b. ap₂ ltb (e a) (e b)))

wake_of-set :
    (ts : List Task) (i j : ℕ) (u : Task)
    → i < length ts
    → wake_of (set ts i u) j ≡ (if j == i then u.wake_time else wake_of ts j)
wake_of-set ts i j u lt = elim (Bool-cases (j == i)) [
  | inl o ↦
      let same : j ≡ i = ground arith in
      rw o (ap entry_wake (ap (get_elem? (set ts i u)) same ∙ own_entry ts i u lt))
  | inr o ↦ rw o (ap entry_wake (other_entry ts i j u lt o))
]

-- The table with another wake time for one task.
abbrev pub delayed : ℕ → Task → ℕ → List Task → List Task
delayed tid t w ts = set ts tid (record t { wake_time = w })

module _ {s : Sched} (i : IsSched s) where
  block_from :
      (tid : ℕ) (t : Task)
      → get_elem? s.tasks tid ≡ some t
      → is_unallocated t.state ≡ false
      → Ends (block_unqueue t s) (λ u s'.
        (cs : Cells ℕ) × (ds : Cells ℕ) × IsLoose s' tid cs ds
        × (s'.tasks ≡ s.tasks)
        × (s'.dispatched ≡ s.dispatched)
        × (u.ready_loc ≡ null)
        × (u.sleep_loc ≡ null)
        × (u.tid ≡ tid))
  unfolding block_unqueue
  block_from tid t at used =
      let (one, own_tid) =
        one_queue s.dispatched tid t.state t.ready_loc t.sleep_loc t.tid used
          (own_state i tid t at) in
      elim (Bool-cases (null == t.ready_loc)) [
        | inl o ↦
            let r = is_null t.ready_loc o in
            elim (Bool-cases (null == t.sleep_loc)) [
              | inl o' ↦
                  let n = is_null t.sleep_loc o' in
                  rw (o, o') (i.rs, i.ss, from_none i.parts tid t at r n, refl, refl, r, n, own_tid)
              | inr o' ↦
                  let n = not_null t.sleep_loc o' in
                  let (_, q, run, (cs, k)) =
                    Gives-run (AllocQueue.remove t.sleep_loc s.sleep_q) _
                      (from_sleep i.parts tid t at n r) in
                  rw (o, o', run) (i.rs, cs, k, refl, refl, r, refl, own_tid)
            ]
        | inr o ↦
            let r = not_null t.ready_loc o in
            let n = other_null t.ready_loc t.sleep_loc r one in
            let (_, q, run, (cs, k)) =
              Gives-run (AllocQueue.remove t.ready_loc s.ready_q) _
                (from_ready i.parts tid t at r n) in
            rw (o, run) (cs, i.ss, k, refl, refl, refl, n, own_tid)
      ]

  -- A task that is allocated is taken off its queue and blocked; the invariant holds.
  pub sched_block-IsSched :
      (tid : ℕ) (t : Task)
      → get_elem? s.tasks tid ≡ some t
      → is_unallocated t.state ≡ false
      → Ends (sched_block tid s) (λ _ s'.
        IsSched s'
        × (s'.dispatched ≡ s.dispatched)
        × ((u : Task) × (get_elem? s'.tasks tid ≡ some u)
            × (u.state ≡ blocked)
            × (u.ready_loc ≡ null)
            × (u.sleep_loc ≡ null)))
  unfolding sched_block
  sched_block-IsSched tid t at used =
      let (u, s', run, (cs, ds, k, same, d, r, n, own_tid)) =
        Ends-run (block_unqueue t s) _ (block_from tid t at used) in
      let size = ap length same in
      let lt : tid < length s'.tasks = omega (arith, in_range s.tasks tid t at, size) in
      let v : Task = record u { state = blocked } in
      rw (at, run)
        (
          sealed (sym (length-set s'.tasks tid v)) (onto_none k lt v r n (r, n, own_tid)),
          d,
          (v, own_entry s'.tasks tid v lt, refl, r, n),
        )

  sleep_from :
      (tid : ℕ) (t : Task)
      → get_elem? s.tasks tid ≡ some t
      → is_unallocated t.state ≡ false
      → t.sleep_loc ≡ null
      → Ends (sleep_unqueue tid t s) (λ _ s'.
        (cs : Cells ℕ) × IsLoose s' tid cs i.ss
        × ((v : Task) × (get_elem? s'.tasks tid ≡ some v) × (v.ready_loc ≡ null) × (v.tid ≡ tid))
        × (now s' ≡ now s)
        × (s'.dispatched ≡ s.dispatched)
        × ((j : ℕ) → (j == tid) ≡ false → get_elem? s'.tasks j ≡ get_elem? s.tasks j))
  unfolding sleep_unqueue
  sleep_from tid t at used n =
      let (one, own_tid) =
        one_queue s.dispatched tid t.state t.ready_loc t.sleep_loc t.tid used
          (own_state i tid t at) in
      let awake = null_test t.sleep_loc n in
      elim (Bool-cases (null == t.ready_loc)) [
        | inl o ↦
            let r = is_null t.ready_loc o in
            rw (awake, o)
              (i.rs, from_none i.parts tid t at r n, (t, at, r, own_tid), refl, refl, λ j e. refl)
        | inr o ↦
            let r = not_null t.ready_loc o in
            let (_, q, run, (cs, k)) =
              Gives-run (AllocQueue.remove t.ready_loc s.ready_q) _
                (from_ready i.parts tid t at r n) in
            let lt = in_range s.tasks tid t at in
            let v : Task = record t { ready_loc = null } in
            rw (awake, o, run)
              (
                cs,
                IsLoose-set k v lt,
                (v, own_entry s.tasks tid v lt, refl, own_tid),
                refl,
                refl,
                λ j e. other_entry s.tasks tid j v lt e,
              )
      ]

  -- The same order before and after the rest of the task's entry has changed.
  same_order :
      (us : List Task) (tid w : ℕ) (t u : Task)
      → tid < length s.tasks
      → tid < length us
      → ((j : ℕ) → (j == tid) ≡ false → get_elem? us j ≡ get_elem? s.tasks j)
      → u.wake_time ≡ w
      → sleep_sort (delayed tid t w s.tasks) ≡ sleep_sort (set us tid u)
  same_order us tid w t u lt lt' same e =
      sleep_sort-eq (delayed tid t w s.tasks) (set us tid u) (λ j.
        wake_of-set s.tasks tid j (record t { wake_time = w }) lt ∙ elim (Bool-cases (j == tid)) [
          | inl o ↦ rw (wake_of-set us tid j u lt', o, e)
          | inr o ↦ rw (wake_of-set us tid j u lt', o) (ap entry_wake (sym (same j o)))
        ])

  -- A task that is allocated and awake, and whose wake time belongs at an end of the sleep queue, is
  -- taken off the ready queue and put to sleep, until `time` after now; the invariant holds.
  pub sched_sleep-IsSched :
      (tid time : ℕ) (t : Task)
      → get_elem? s.tasks tid ≡ some t
      → is_unallocated t.state ≡ false
      → t.sleep_loc ≡ null
      → AtEnd (sleep_sort (delayed tid t ((now s + time) % 2 ^ 32) s.tasks)) tid i.ss
      → Ends (sched_sleep tid time s) (λ _ s'.
        IsSched s'
        × (s'.dispatched ≡ s.dispatched)
        × ((u : Task) × (get_elem? s'.tasks tid ≡ some u)
            × (u.state ≡ sleeping)
            × (u.wake_time ≡ (now s + time) % 2 ^ 32)
            × (u.sleep_loc ≢ null)
            × (u.ready_loc ≡ null)))
  unfolding sched_sleep
  sched_sleep-IsSched tid time t at used awake end =
      let w = (now s + time) % 2 ^ 32 in
      let lt = in_range s.tasks tid t at in
      let (_, s', run, (cs, k, (v, v_at, r, own_tid), clock, d, same)) =
        Ends-run (sleep_unqueue tid t s) _ (sleep_from tid t at used awake) in
      let lt' = in_range s'.tasks tid v v_at in
      let wake : (now s' + time) % 2 ^ 32 ≡ w = ap (λ n. (n + time) % 2 ^ 32) clock in
      let u : Task = record v { state = sleeping; wake_time = (now s' + time) % 2 ^ 32 } in
      let tasks = set s'.tasks tid u in
      let lt'' : tid < length tasks = omega (arith, lt', length-set s'.tasks tid u) in
      let (loc, q, run', (ne, k')) =
        Gives-run (AllocQueue.push_in_order (sleep_sort tasks) tid s'.sleep_q) _ (
          onto_sleep (IsLoose-set k u lt') lt'' (sleep_sort tasks) u refl r own_tid
            (subst (λ o. AtEnd o tid i.ss) (same_order s'.tasks tid w t u lt lt' same wake) end)) in
      let x : Task = record u { sleep_loc = loc } in
      rw (at, run, v_at, run')
        (
          sealed (sym (length-set tasks tid x)) (reclock k'),
          d,
          (x, own_entry tasks tid x lt'', refl, wake, ne, r),
        )
