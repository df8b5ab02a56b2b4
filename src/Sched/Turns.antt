-- ===== src/Sched/Turns.antt =====
-- Turns on the ready queue: tasks that yield are run one after the other.
use mathlib.Core.Path.{subst}
use launch_core.Prelude.{
  ℕ, zero, suc, ◌≡◌, inl, inr, ◌∙◌, refl, sym, ap, true, false, Option, none, some, [], ◌∷◌, ◌++◌,
  append_assoc, arith, length, length-append, get_elem?, Ret, yield,
}
use launch_core.Queue.Heap.{Ptr, null}
use launch_core.Queue.Chain.{Cells, snoc-cases}
use launch_core.AllocQueue.Contents.{Holds, pop_empty}
use launch_core.Sched.{
  active, is_active, is_unallocated, Task, Sched, Call, max_num_tasks, wakeup_loop, wakeup_tasks,
  next_task, finish, run_task, sched_dispatch, dispatches,
}
use launch_core.Sched.Moves.{Ends, Ends-run, IsSched}
use launch_core.Sched.Dispatch.{Chosen, Ends-map, next_task-Chosen}
use launch_core.Sched.Finish.{finish-IsSched}

-- A task function that yields at once.
abbrev pub yields : ℕ → ℕ → Call Ret
yields func arg s = some (yield, s)

last_cell : Cells ℕ → Option (Ptr × ℕ)
last_cell [] = none
last_cell (c ∷ []) = some c
last_cell (c ∷ d ∷ cs) = last_cell (d ∷ cs)

last_cell_snoc : (cs : Cells ℕ) (c : Ptr × ℕ) → last_cell (cs ++ (c ∷ [])) ≡ some c
unfolding last_cell
last_cell_snoc [] c = refl
last_cell_snoc (d ∷ []) c = refl
last_cell_snoc (d ∷ e ∷ cs) c = last_cell_snoc (e ∷ cs) c

but_last : Cells ℕ → Cells ℕ
but_last [] = []
but_last (c ∷ []) = []
but_last (c ∷ d ∷ cs) = c ∷ but_last (d ∷ cs)

but_last_snoc : (cs : Cells ℕ) (c : Ptr × ℕ) → but_last (cs ++ (c ∷ [])) ≡ cs
unfolding but_last
but_last_snoc [] c = refl
but_last_snoc (d ∷ []) c = refl
but_last_snoc (d ∷ e ∷ cs) c = ap (λ l. d ∷ l) (but_last_snoc (e ∷ cs) c)

same_last :
    (cs ds : Cells ℕ) (p q j k : ℕ)
    → cs ++ ((p, j) ∷ []) ≡ ds ++ ((q, k) ∷ [])
    → (j ≡ k) × (cs ≡ ds)
same_last cs ds p q j k e =
    let c : ◌≡◌ {A = Option (Ptr × ℕ)} (some (p, j)) (some (q, k)) =
      sym (last_cell_snoc cs (p, j)) ∙ ap last_cell e ∙ last_cell_snoc ds (q, k) in
    (cc, sym (but_last_snoc cs (p, j)) ∙ ap but_last e ∙ but_last_snoc ds (q, k))

-- With no sleeper there is no one to wake.
wakeup_none : (s : Sched) (i : IsSched s) → i.ss ≡ [] → wakeup_tasks s ≡ some (tt, s)
unfolding wakeup_tasks wakeup_loop
wakeup_none s i e =
    let (peeked, _) = pop_empty (subst (Holds s.sleep_q) e i.parts.sleep) in rw peeked

-- The oldest ready task is chosen.
chosen_last :
    (s : Sched) (i : IsSched s) (cs : Cells ℕ) (p j : ℕ) (o : Option ℕ) (s' : Sched)
    → i.rs ≡ cs ++ ((p, j) ∷ [])
    → Chosen s i o s'
    → (o ≡ some j)
      × ((i' : IsSched s') × (i'.rs ≡ cs) × (i'.ss ≡ i.ss))
      × (s'.dispatched ≡ j)
      × ((u : Task) × (get_elem? s'.tasks j ≡ some u) × (u.state ≡ active) × (u.ready_loc ≡ null))
chosen_last s i cs p j none s' e (bad, _) =
    absurd (omega (arith, ap length (sym bad ∙ e), length-append cs ((p, j) ∷ [])))
chosen_last s i cs p j (some k) s' e ((ds, q, e', (i', r, n)), d, (u, at, on, off)) =
    let (jk, same) = same_last cs ds p q j k (sym e ∙ e') in
    (
      ap some (sym jk),
      (i', r ∙ sym same, n),
      d ∙ sym jk,
      (u, ap (get_elem? s'.tasks) jk ∙ at, on, off),
    )

-- A dispatch runs the oldest task, which then is the newest.
turn :
    (s : Sched) (i : IsSched s) (cs : Cells ℕ) (p j : ℕ)
    → s.dispatched ≡ max_num_tasks
    → i.ss ≡ []
    → i.rs ≡ cs ++ ((p, j) ∷ [])
    → Ends (sched_dispatch yields s) (λ _ s'.
      ((i' : IsSched s') × (i'.ss ≡ []) × ((loc : Ptr) × (i'.rs ≡ (loc, j) ∷ cs)))
      × (s'.dispatched ≡ max_num_tasks))
unfolding sched_dispatch run_task
turn s i cs p j idle quiet e =
    let (o, s2, e2, chosen) = Ends-run (next_task s) _ (next_task-Chosen s i idle) in
    let (picked, (i2, r2, n2), d, (u, at, on, off)) = chosen_last s i cs p j o s2 e chosen in
    let used : is_unallocated u.state ≡ false = ap is_unallocated on in
    let runs : is_active u.state ≡ true = ap is_active on in
    let end = finish-IsSched i2 j u at d yield (used, off, inl refl) in
    rw (wakeup_none s i quiet, e2, picked, at)
      (Ends-map (finish j yield s2) _
        (λ _ s'.
          ((i' : IsSched s') × (i'.ss ≡ []) × ((loc : Ptr) × (i'.rs ≡ (loc, j) ∷ cs)))
          × (s'.dispatched ≡ max_num_tasks))
        (λ _ s' ((i', n, r), d', _).
          let (loc, r') = rw runs at r in
          ((i', n ∙ n2 ∙ quiet, (loc, r' ∙ ap (λ l. (loc, j) ∷ l) r2)), d'))
        end)

-- With no one asleep and every task yielding, a task that has `n` ready tasks before it is the one
-- that is run after `n` dispatches: no ready task waits forever.
pub dispatches-next :
    (n : ℕ) (s : Sched) (i : IsSched s) (cs : Cells ℕ) (p j : ℕ) (ds : Cells ℕ)
    → s.dispatched ≡ max_num_tasks
    → i.ss ≡ []
    → i.rs ≡ cs ++ ((p, j) ∷ ds)
    → length ds ≡ n
    → Ends (dispatches yields n s) (λ _ s'. Ends (next_task s') (λ o _. o ≡ some j))
unfolding dispatches
dispatches-next zero s i cs p j (d ∷ ds) idle quiet e len = absurd (omega (arith, len))
dispatches-next zero s i cs p j [] idle quiet e len =
    Ends-map (next_task s) (λ o s'. Chosen s i o s') (λ o _. o ≡ some j)
      (λ o s' c. (chosen_last s i cs p j o s' e c).0) (next_task-Chosen s i idle)
dispatches-next (suc n) s i cs p j ds idle quiet e len = elim (snoc-cases ds) [
  | inl k ↦ absurd (omega (arith, len, ap length k))
  | inr (es, q, l, k) ↦
      let regroup : i.rs ≡ (cs ++ ((p, j) ∷ es)) ++ ((q, l) ∷ []) =
        e ∙ ap (λ t. cs ++ ((p, j) ∷ t)) k ∙ sym (append_assoc cs ((p, j) ∷ es) ((q, l) ∷ [])) in
      let (_, s', run, ((i', quiet', (loc, r)), idle')) =
        Ends-run (sched_dispatch yields s) _
          (turn s i (cs ++ ((p, j) ∷ es)) q l idle quiet regroup) in
      rw run (
        dispatches-next n s' i' ((loc, l) ∷ cs) p j es idle' quiet' r
          (omega (arith, len, ap length k, length-append es ((q, l) ∷ []))))
]
