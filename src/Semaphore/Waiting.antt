-- ===== src/Semaphore/Waiting.antt =====
-- The tasks that wait at a blocking semaphore.
use mathlib.Core.Path.{subst}
use launch_core.Prelude.{
  true, ◌≢◌, sym, ap, ◌∙◌, ℕ, ◌≤◌, ◌≡◌, ◌⊎◌, inl, inr, refl, false, Option, none, some, [], ◌∷◌,
  ◌++◌, arith, length, get_elem?, nonnull, lt_or_eq, ==_iff, Bool-cases, Ret, success, error,
  blocked,
}
use launch_core.Queue.Heap.{Ptr}
use launch_core.Queue.Chain.{Cells, snoc-cases}
use launch_core.Pool.State.{IsQueue-last}
use launch_core.AllocQueue
use launch_core.AllocQueue.{AllocQueue}
use launch_core.AllocQueue.Contents.{
  Holds, Gives-run, capacity, push-Holds, pop-Holds, pop_empty, peek_oldest, push_full,
}
use launch_core.Sched
use launch_core.Sched.{Sched, Task, max_num_tasks, sched_wake, sched_block, is_unallocated}
use launch_core.Sched.Moves.{Ends-run, IsSched}
use launch_core.Sched.Calls.{Woken, sched_wake-IsSched}
use launch_core.Sched.Suspend.{sched_block-IsSched}
use launch_core.Semaphore.{
  ℤ, pos, negsuc, is_zero, fits, plus_one, minus_one, BlockingSemaphore, acquire_spin, release_spin,
  wake_oldest, release, acquire,
}

-- The semaphore is not locked, and the tasks of `ws` wait, the newest first.
pub record IsSemaphore (b : BlockingSemaphore) (ws : Cells ℕ) : Type 0 where
  pub queued : Holds b.queue ws
  pub unlocked : b.lock ≡ 1

-- A call that ends, with what holds then.
abbrev pub Returns :
    Option (Ret × BlockingSemaphore × Sched) → (Ret → BlockingSemaphore → Sched → Type 0) → Type 0
Returns none P = ⊥
Returns (some (r, b, t)) P = P r b t

pub Returns-run :
    (o : Option (Ret × BlockingSemaphore × Sched)) (P : Ret → BlockingSemaphore → Sched → Type 0)
    → Returns o P
    → (r : Ret) × (b : BlockingSemaphore) × (t : Sched) × (o ≡ some (r, b, t)) × P r b t
Returns-run none P y = absurd y
Returns-run (some (r, b, t)) P y = (r, b, t, refl, y)

is_zero_lem : (z : ℤ) → is_zero z ≡ true → z ≡ pos 0
is_zero_lem (pos n) e = ap pos ((==_iff n 0).0 e)
is_zero_lem (negsuc n) e = cc

nonzero : (z : ℤ) → is_zero z ≡ false → z ≢ pos 0
nonzero z e same = clash (sym (ap is_zero same) ∙ e)
  where
    clash : true ≢ false
    clash e = cc

-- What `acquire` did: it took one of the count; or the task waits as the newest, and is blocked; or
-- there was no room for it, and the lock is still held.
abbrev pub Acquired : BlockingSemaphore → Cells ℕ → Sched → Ret → BlockingSemaphore → Sched → Type 0
Acquired b ws t r b' t' =
    ((b.count ≢ pos 0)
      × (r ≡ success)
      × IsSemaphore b' ws
      × (b'.count ≡ minus_one b.count)
      × (t' ≡ t))
    ⊎ (((b.count ≡ pos 0)
          × (r ≡ blocked)
          × (b'.count ≡ pos 0)
          × ((p : Ptr) × IsSemaphore b' ((p, t.dispatched) ∷ ws))
          × ((u : Task) × (get_elem? t'.tasks t.dispatched ≡ some u) × (u.state ≡ Sched.blocked)))
        ⊎ ((b.count ≡ pos 0)
            × (r ≡ error)
            × (length ws ≡ capacity b.queue)
            × (b'.lock ≡ 0)
            × (t' ≡ t)))

module _ {b : BlockingSemaphore} {ws : Cells ℕ} {t : Sched} (i : IsSemaphore b ws)
    (it : IsSched t) where
  -- `acquire` of a task that is dispatched, where the count is not the least `int`, ends, and the
  -- scheduler stays well formed: the task takes one of the count if that is not 0, below 0 too; or it is blocked, as the newest of the tasks that wait; or, if
  -- there is no room for it to wait, it is given an error and the lock is not released.
  pub acquire-Acquired :
      (u : Task)
      → get_elem? t.tasks t.dispatched ≡ some u
      → is_unallocated u.state ≡ false
      → fits (minus_one b.count) ≡ true
      → Returns (acquire b t) (λ r b' t'. IsSched t' × Acquired b ws t r b' t')
  unfolding acquire acquire_spin release_spin
  acquire-Acquired u at used small =
      let le : length ws ≤ capacity b.queue = omega (arith, i.queued.pooled.total) in
      elim (Bool-cases (is_zero b.count)) [
        | inr more ↦
            rw (i.unlocked, more, small)
              (
                it,
                inl (
                  nonzero b.count more,
                  refl,
                  record { queued = i.queued; unlocked = refl },
                  refl,
                  refl,
                ),
              )
        | inl zero' ↦
            let z = is_zero_lem b.count zero' in
            elim (lt_or_eq (length ws) (capacity b.queue) le) [
              | inr full ↦
                  rw (i.unlocked, zero', push_full i.queued t.dispatched full)
                    (it, inr (inr (z, refl, full, refl, refl)))
              | inl room ↦
                  let (p, q, run, (ne, _, holds, _)) =
                    Gives-run (AllocQueue.push t.dispatched b.queue) _
                      (push-Holds i.queued t.dispatched room) in
                  let (_, t', run', (it', _, (v, v_at, v_st, _, _))) =
                    Ends-run (sched_block t.dispatched t) _
                      (sched_block-IsSched it t.dispatched u at used) in
                  rw (i.unlocked, zero', run, nonnull p ne, run')
                    (
                      it',
                      inr (
                          inl (
                            z,
                            refl,
                            z,
                            (p, record { queued = holds; unlocked = refl }),
                            (v, v_at, v_st),
                          )),
                    )
            ]
      ]

-- The tasks that wait are of the table.
abbrev pub AllKnown : Cells ℕ → Sched → Type 0
AllKnown [] t = Unit {0}
AllKnown ((p, tid) ∷ ws) t = ((u : Task) × (get_elem? t.tasks tid ≡ some u)) × AllKnown ws t

known_last :
    (ws : Cells ℕ) (p : Ptr) (tid : ℕ) (t : Sched)
    → AllKnown (ws ++ ((p, tid) ∷ [])) t
    → (u : Task) × (get_elem? t.tasks tid ≡ some u)
known_last [] p tid t k = k.0
known_last (w ∷ ws) p tid t k = known_last ws p tid t k.1

-- What `release` did beside counting: nothing, with no task waiting; or it took the task that waited
-- longest off the queue and woke it.
abbrev pub Released :
    BlockingSemaphore
    → Cells ℕ
    → (t : Sched) → IsSched t
    → BlockingSemaphore
    → (t' : Sched) → IsSched t'
    → Type 0
Released b ws t it b' t' it' =
    ((ws ≡ []) × IsSemaphore b' [] × (t' ≡ t))
    ⊎ ((ds : Cells ℕ) × (p : Ptr) × (tid : ℕ) × (u : Task) × (ws ≡ ds ++ ((p, tid) ∷ []))
        × IsSemaphore b' ds
        × (get_elem? t.tasks tid ≡ some u)
        × Woken it tid u t' it')

module _ {b : BlockingSemaphore} {ws : Cells ℕ} {t : Sched} (i : IsSemaphore b ws)
    (it : IsSched t) where
  -- `release`, where the count is not the greatest `int`, ends with success and one more in the
  -- count; the task that has waited longest, if one
  -- waits, leaves the queue and is woken, and the semaphore and the scheduler stay well formed.
  pub release-Released :
      AllKnown ws t
      → fits (plus_one b.count) ≡ true
      → Returns (release b t) (λ r b' t'.
        (r ≡ success)
        × (b'.count ≡ plus_one b.count)
        × ((it' : IsSched t') × Released b ws t it b' t' it'))
  unfolding release wake_oldest acquire_spin release_spin
  release-Released known small = elim (snoc-cases ws) [
    | inl e ↦
        let h = subst (Holds b.queue) e i.queued in
        let (peeked, _) = pop_empty h in
        rw (i.unlocked, small, peeked)
          (refl, refl, (it, inl (e, record { queued = h; unlocked = refl }, refl)))
    | inr (ds, p, tid, e) ↦
        let h = subst (Holds b.queue) e i.queued in
        let (u, at) = known_last ds p tid t (subst (λ l. AllKnown l t) e known) in
        let (peeked, _) = peek_oldest ds p tid h in
        let ne = (IsQueue-last ds p tid h.linked).0 in
        let (_, q, run, (holds, _, still)) =
          Gives-run (AllocQueue.pop b.queue) _ (pop-Holds ds p tid h) in
        let (_, t', run', ((it', woken), _)) =
          Ends-run (sched_wake tid t) _ (sched_wake-IsSched it tid u at) in
        rw (i.unlocked, small, peeked, nonnull p ne, run, still, run')
          (
            refl,
            refl,
            (it', inr (ds, p, tid, u, e, record { queued = holds; unlocked = refl }, at, woken)),
          )
  ]
