-- ===== src/Sched/Calls.antt =====
-- sched_start and sched_wake keep every task in place.
use mathlib.Core.Path.{subst}
use launch_core.AllocQueue.Contents.{Gives-run}
use launch_core.Prelude.{
  ℕ, zero, suc, ◌-◌, ◌≤◌, ◌<◌, ◌≡◌, ◌≢◌, ◌⊎◌, inl, inr, ◌∙◌, refl, sym, ap, true, false, Option,
  none, some, List, [], ◌∷◌, arith, ◌==◌, length, length-set, get_elem?, get_elem?-set, set,
  Bool-cases, Option-cases,
}
use launch_core.Queue.Heap.{Ptr, null}
use launch_core.Queue.Chain.{Cells}
use launch_core.AllocQueue
use launch_core.Sched.{
  TaskState, unallocated, active, sleeping, blocked, is_unallocated, is_idle, Task, Sched,
  find_unused, sched_start, sched_wake, wake_unqueue,
}
use launch_core.Sched.Places.{StateOk}
use launch_core.Sched.Settle.{own}
use launch_core.Sched.Moves.{
  Ends, Ends-run, IsLoose, IsSched, in_range, onto_ready, from_sleep, from_none,
}

pub unallocated_of : (st : TaskState) → is_unallocated st ≡ true → st ≡ unallocated
unallocated_of unallocated e = refl
unallocated_of active e = cc
unallocated_of sleeping e = cc
unallocated_of blocked e = cc

find_unused-some :
    (ts : List Task) (k i : ℕ) (t : Task)
    → find_unused ts k ≡ some (i, t)
    → (k ≤ i) × (get_elem? ts (i - k) ≡ some t) × (t.state ≡ unallocated)
unfolding find_unused
find_unused-some [] k i t e = cc
find_unused-some (u ∷ ts) k i t e = elim (Bool-cases (is_unallocated u.state)) [
  | inl o ↦
      let same : ◌≡◌ {A = Option (ℕ × Task)} (some (k, u)) (some (i, t)) = rw o at e in
      let ki : k ≡ i = cc in
      let start : i - k ≡ 0 = omega arith in
      let ut : u ≡ t = cc in
      (
        omega arith,
        ap (get_elem? (u ∷ ts)) start ∙ ap some ut,
        ap (λ (v : Task). v.state) (sym ut) ∙ unallocated_of u.state o,
      )
  | inr o ↦
      let (le, at, st) = find_unused-some ts (suc k) i t (rw o at e) in
      let step : i - k ≡ suc (i - suc k) = omega (arith, le) in
      (omega (arith, le), ap (get_elem? (u ∷ ts)) step ∙ at, st)
]

find_unused-none :
    (ts : List Task) (k : ℕ)
    → find_unused ts k ≡ none
    → (j : ℕ) (t : Task) → get_elem? ts j ≡ some t
    → is_unallocated t.state ≡ false
unfolding find_unused
find_unused-none [] k e j t at = cc
find_unused-none (u ∷ ts) k e zero t at = elim (Bool-cases (is_unallocated u.state)) [
  | inl o ↦ let bad : ◌≡◌ {A = Option (ℕ × Task)} (some (k, u)) none = rw o at e in cc
  | inr o ↦ let ut : u ≡ t = cc in subst (λ (v : Task). is_unallocated v.state ≡ false) ut o
]
find_unused-none (u ∷ ts) k e (suc j) t at = elim (Bool-cases (is_unallocated u.state)) [
  | inl o ↦ let bad : ◌≡◌ {A = Option (ℕ × Task)} (some (k, u)) none = rw o at e in cc
  | inr o ↦ find_unused-none ts (suc k) (rw o at e) j t at
]

-- What `sched_start` did: it put a task that was unallocated on the ready queue, to run `func` on
-- `arg`; or, with no such task, nothing.
abbrev pub Started : ℕ → ℕ → (s : Sched) → IsSched s → Option ℕ → (s' : Sched) → IsSched s' → Type 0
Started func arg s i none s' i' =
    (s' ≡ s) × ((j : ℕ) (t : Task) → get_elem? s.tasks j ≡ some t → is_unallocated t.state ≡ false)
Started func arg s i (some tid) s' i' =
    ((t : Task) × (get_elem? s.tasks tid ≡ some t) × (t.state ≡ unallocated))
    × ((u : Task) × (get_elem? s'.tasks tid ≡ some u)
        × (u.state ≡ active)
        × (u.func ≡ func)
        × (u.arg ≡ arg)
        × (i'.rs ≡ (u.ready_loc, tid) ∷ i.rs)
        × (i'.ss ≡ i.ss))

pub is_null : (p : Ptr) → (null == p) ≡ true → p ≡ null
is_null p e = ground arith

pub not_null : (p : Ptr) → (null == p) ≡ false → p ≢ null
not_null p e = ground arith

pub null_test : (p : Ptr) → p ≡ null → (null == p) ≡ true
null_test p e = ground arith

pub found_test : (p : Ptr) → p ≢ null → (null == p) ≡ false
found_test p e = ground arith

idle_place :
    (run i : ℕ) (st : TaskState) (r n : Ptr) (tid : ℕ)
    → is_idle st ≡ true
    → StateOk run i st r n tid
    → (r ≡ null) × (tid ≡ i)
idle_place run i unallocated r n tid e k = cc
idle_place run i active r n tid e k = cc
idle_place run i sleeping r n tid e k = (k.0, k.2)
idle_place run i blocked r n tid e k = (k.0, k.2)

pub own_entry :
    (ts : List Task) (i : ℕ) (u : Task) → i < length ts → get_elem? (set ts i u) i ≡ some u
own_entry ts i u lt = get_elem?-set ts i i u lt ∙ ground arith

abbrev pub sealed :
    {s : Sched} {rs ss : Cells ℕ} {n : ℕ} → n ≡ length s.tasks → IsLoose s n rs ss → IsSched s
sealed {s} {rs} {ss} e k = record { rs = rs; ss = ss; parts = subst (λ m. IsLoose s m rs ss) e k }

module _ {s : Sched} (i : IsSched s) where
  pub own_state :
      (tid : ℕ) (t : Task)
      → get_elem? s.tasks tid ≡ some t
      → StateOk s.dispatched tid t.state t.ready_loc t.sleep_loc t.tid
  own_state tid t at = (own i.parts.placed tid t at).2

  -- `sched_start` never faults and keeps the invariant: it makes a task that was unallocated active
  -- and the newest on the ready queue, with the function and argument given; or every task is
  -- allocated, and nothing changes.
  pub sched_start-IsSched :
      (func arg : ℕ)
      → Ends (sched_start func arg s) (λ o s'.
        ((i' : IsSched s') × Started func arg s i o s' i') × (s'.dispatched ≡ s.dispatched))
  unfolding sched_start
  sched_start-IsSched func arg = elim (Option-cases (find_unused s.tasks 0)) [
    | inl e ↦ rw (e, sched_start) ((i, (refl, find_unused-none s.tasks 0 e)), refl)
    | inr ((tid, t), e) ↦
        let (_, at, st) = find_unused-some s.tasks 0 tid t e in
        let whole : tid ≡ tid - 0 = omega arith in
        let at : get_elem? s.tasks tid ≡ some t = ap (get_elem? s.tasks) whole ∙ at in
        let lt = in_range s.tasks tid t at in
        let off : (t.ready_loc ≡ null) × (t.sleep_loc ≡ null) =
          subst (λ k. StateOk s.dispatched tid k t.ready_loc t.sleep_loc t.tid) st
            (own_state tid t at) in
        let v : Task = record t {
          state = active;
          func = func;
          arg = arg;
          tid = tid;
          sleep_loc = null;
        } in
        let (loc, q, run, (ne, k)) =
          Gives-run (AllocQueue.push tid s.ready_q) _
            (onto_ready (from_none i.parts tid t at off.0 off.1) lt v refl refl refl) in
        let u : Task = record v { ready_loc = loc } in
        rw (e, sched_start)
          (rw run (
            (
              sealed (sym (length-set s.tasks tid u)) k,
              ((t, at, st), (u, own_entry s.tasks tid u lt, refl, refl, refl, refl, refl)),
            ),
            refl,
          ))
  ]

  -- A task that sleeps or is blocked becomes ready; any other call changes nothing.
  abbrev pub Woken : ℕ → Task → (s' : Sched) → IsSched s' → Type 0
  Woken tid t s' i' =
      ((is_idle t.state ≡ false) × (s' ≡ s))
      ⊎ ((is_idle t.state ≡ true)
          × ((u : Task) × (get_elem? s'.tasks tid ≡ some u)
              × (u.state ≡ active)
              × (i'.rs ≡ (u.ready_loc, tid) ∷ i.rs)))

  wake_from :
      (tid : ℕ) (t : Task)
      → get_elem? s.tasks tid ≡ some t
      → is_idle t.state ≡ true
      → Ends (wake_unqueue t s) (λ u s'.
        (cs : Cells ℕ) × IsLoose s' tid i.rs cs
        × (s'.tasks ≡ s.tasks)
        × (s'.dispatched ≡ s.dispatched)
        × (u.sleep_loc ≡ null)
        × (u.tid ≡ tid))
  unfolding wake_unqueue
  wake_from tid t at idle =
      let (r, own_tid) =
        idle_place s.dispatched tid t.state t.ready_loc t.sleep_loc t.tid idle
          (own_state tid t at) in
      elim (Bool-cases (null == t.sleep_loc)) [
        | inl o ↦
            let n = is_null t.sleep_loc o in
            rw o (i.ss, from_none i.parts tid t at r n, refl, refl, n, own_tid)
        | inr o ↦
            let n = not_null t.sleep_loc o in
            let (_, q, run, (cs, k)) =
              Gives-run (AllocQueue.remove t.sleep_loc s.sleep_q) _
                (from_sleep i.parts tid t at n r) in
            rw (o, run) (cs, k, refl, refl, refl, own_tid)
      ]

  -- `sched_wake` of a task in the table never faults and keeps the invariant: a task that sleeps or
  -- is blocked becomes the newest on the ready queue, and any other call changes nothing.
  pub sched_wake-IsSched :
      (tid : ℕ) (t : Task)
      → get_elem? s.tasks tid ≡ some t
      → Ends
          (sched_wake tid s)
          (λ _ s'. ((i' : IsSched s') × Woken tid t s' i') × (s'.dispatched ≡ s.dispatched))
  unfolding sched_wake
  sched_wake-IsSched tid t at = elim (Bool-cases (is_idle t.state)) [
    | inl idle ↦
        let (r, _) =
          idle_place s.dispatched tid t.state t.ready_loc t.sleep_loc t.tid idle
            (own_state tid t at) in
        let (u, s', run, (cs, k, same, d, off, own_tid)) =
          Ends-run (wake_unqueue t s) _ (wake_from tid t at idle) in
        let on_none = null_test t.ready_loc r in
        let size = ap length same in
        let lt : tid < length s'.tasks = omega (arith, in_range s.tasks tid t at, size) in
        let v : Task = record u { state = active } in
        let (loc, q, run', (ne, k')) =
          Gives-run (AllocQueue.push tid s'.ready_q) _ (onto_ready k lt v refl off own_tid) in
        let w : Task = record v { ready_loc = loc } in
        rw (at, idle, on_none, run, run')
          (
            (
              sealed (sym (length-set s'.tasks tid w)) k',
              inr (refl, (w, own_entry s'.tasks tid w lt, refl, refl)),
            ),
            d,
          )
    | inr busy ↦ rw (at, busy) ((i, inl (refl, refl)), refl)
  ]
