-- ===== src/Sched/Examples.antt =====
-- The scheduler from start-up with two tasks, and the theorems there.
use mathlib.Core.Path.{subst}
use launch_core.Prelude.{
  sym, arith, length, Ret, ℕ, ◌<◌, ◌≤◌, ◌≡◌, ◌≢◌, inl, ◌∙◌, refl, ap, false, true, Bool, Option,
  none, some, ◌+◌, ◌%◌, ◌^◌, List, [], ◌∷◌, get_elem?, replicate, yield,
}
use launch_core.Queue.Heap.{Ptr, null, Node, node, Heap, set_item, load, write, set_prev, set_next}
use launch_core.Queue.Simple.{queue, push_node, pop_node, remove_node, peek_node, empty_queue}
use launch_core.Pool.{Descriptor, descriptor, pool, pool_loop, alloc, free, container}
use launch_core.AllocQueue
use launch_core.Sched.Places.{StateOk}
use launch_core.Sched.{
  Call, wakeup_loop, sleeping, blocked, is_unallocated, block_unqueue, sleep_sort, now, Task, Sched,
  zero_task, boot, find_unused, max_num_tasks, sched_start, sched_wake, sched_block, sched_sleep,
  sched_dispatch, next_task, dispatches, finish, wakeup_tasks,
}
use launch_core.Sched.Moves.{Ends, Ends-run, IsSched}
use launch_core.Queue.Chain.{Cells}
use launch_core.Queue.Sorted.{find}
use launch_core.Sched.Suspend.{delayed, sched_block-IsSched, sched_sleep-IsSched}
use launch_core.Sched.Dispatch.{Quiet, Chosen, wakeup_tasks-IsSched, next_task-Chosen}
use launch_core.Sched.Finish.{Owes, Running, Behaves, Requeued, Finished, finish-IsSched}
use launch_core.Sched.Calls.{own_state, Started, Woken, sched_wake-IsSched, sched_start-IsSched}
use launch_core.Sched.Turns.{yields, dispatches-next}
use launch_core.Sched.Reach.{Boots, Booted, boot-IsSched, Reach, here, next, start, Reach-dispatch}

abbrev zero_queue : AllocQueue.AllocQueue ℕ
zero_queue = record {
  list = queue 0 0 0;
  pool = record { self = 0; descs = []; free_desc = queue 0 0 0; free_nodes = queue 0 0 0 };
  heap = λ a. none;
  nodes = λ a. none;
}

abbrev zero_sched : Sched
zero_sched = record {
  dispatched = 0;
  tasks = [];
  ready_q = zero_queue;
  sleep_q = zero_queue;
  clock = λ n. 0;
  calls = 0;
}

abbrev get_or_zero : Option Sched → Sched
get_or_zero none = zero_sched
get_or_zero (some s) = s

abbrev descs : List Descriptor
descs = replicate max_num_tasks (descriptor 0 true)

abbrev memory : Heap ℕ
memory a = some (node 0 0 0)

unfoldable s0 : Sched
unfolding boot AllocQueue.alloc_queue pool pool_loop set_item load push_node empty_queue set_prev
    write set_next
s0 = get_or_zero (boot 1 2 descs memory memory memory memory)

-- A function of a call's result, where it does not fault.
abbrev result : {A : Type 0} → A → Option (A × Sched) → A
result a none = a
result a (some (b, _)) = b

abbrev after : {A : Type 0} → Option (A × Sched) → Sched
after none = zero_sched
after (some (_, s)) = s

Boots-get : (o : Option Sched) (P : Sched → Type 0) → Boots o P → P (get_or_zero o)
Boots-get none P e = absurd e
Boots-get (some s) P e = e

Ends-get :
    {A : Type 0} (a : A) (o : Option (A × Sched)) (P : A → Sched → Type 0)
    → Ends o P
    → P (result a o) (after o)
Ends-get a none P e = absurd e
Ends-get a (some (b, s)) P e = e

filled : (n : ℕ) → (a : Ptr) → 0 < a → a ≤ n → (o : Node ℕ) × (memory a ≡ some o)
filled n a lt le = (node 0 0 0, refl)

s0-boots : Booted s0
unfolding s0
s0-boots = Boots-get (boot 1 2 descs memory memory memory memory) Booted (
    boot-IsSched 1 2 descs memory memory memory memory refl (filled 64) (filled 64) (filled 64)
      (filled 64))

unfoldable s1 : Sched
unfolding s0 sched_start find_unused AllocQueue.push alloc pop_node
s1 = after (sched_start 7 0 s0)

unfoldable pub s2 : Sched
unfolding s1
s2 = after (sched_start 8 0 s1)

first_tid : result none (sched_start 7 0 s0) ≡ some 0
unfolding s1
first_tid = refl

second_tid : result none (sched_start 8 0 s1) ≡ some 1
unfolding s1
second_tid = refl

-- A start that yields a TID puts that task on the ready queue.
start_ready :
    (s : Sched) (i : IsSched s) (func arg tid : ℕ)
    → result none (sched_start func arg s) ≡ some tid
    → ((i' : IsSched (after (sched_start func arg s))) × ((loc : Ptr) × (i'.rs ≡ (loc, tid) ∷ i.rs))
        × (i'.ss ≡ i.ss))
      × ((after (sched_start func arg s)).dispatched ≡ s.dispatched)
start_ready s i func arg tid e =
    let r = Ends-get none (sched_start func arg s) _ (sched_start-IsSched i func arg) in
    let ((i', (_, (u, _, _, _, _, rs, ss))), d) =
      subst
        (λ o.
          ((i' : IsSched (after (sched_start func arg s))) × Started func arg s i o
              (after (sched_start func arg s)) i')
          × ((after (sched_start func arg s)).dispatched ≡ s.dispatched))
        e r in
    ((i', (u.ready_loc, rs), ss), d)

s1-ready :
    ((i : IsSched s1) × ((loc : Ptr) × (i.rs ≡ (loc, 0) ∷ [])) × (i.ss ≡ []))
    × (s1.dispatched ≡ max_num_tasks)
unfolding s1
s1-ready =
    let ((i, r, n), _, d) = s0-boots in
    let ((i', (loc, r'), n'), d') = start_ready s0 i 7 0 0 first_tid in
    ((i', (loc, r' ∙ ap (λ l. (loc, 0) ∷ l) r), n' ∙ n), d' ∙ d)

pub s2-ready :
    ((i : IsSched s2) × ((loc : Ptr) × (l : Ptr) × (i.rs ≡ (loc, 1) ∷ (l, 0) ∷ [])) × (i.ss ≡ []))
    × (s2.dispatched ≡ max_num_tasks)
unfolding s2
s2-ready =
    let ((i, (l, r), n), d) = s1-ready in
    let ((i', (loc, r'), n'), d') = start_ready s1 i 8 0 1 second_tid in
    ((i', (loc, l, r' ∙ ap (λ k. (loc, 1) ∷ k) r), n' ∙ n), d' ∙ d)

-- The second of two tasks runs after one dispatch.
dispatches-next_example :
    Ends (dispatches yields 1 s2) (λ _ s'. Ends (next_task s') (λ o _. o ≡ some 1))
dispatches-next_example =
    dispatches-next 1 s2 s2-ready.0.0 [] s2-ready.0.1.0 1 ((s2-ready.0.1.1, 0) ∷ []) s2-ready.1
      s2-ready.0.2 s2-ready.0.1.2 refl

no_cells : (cs : Cells ℕ) → length cs ≡ 0 → cs ≡ []
no_cells [] e = refl
no_cells (c ∷ cs) e = absurd (omega (arith, e))

alone : (sort : ℕ → ℕ → Bool) (v : ℕ) (cs : Cells ℕ) → cs ≡ [] → find sort v cs ≡ null
unfolding find
alone sort v cs e = ap (find sort v) e

boot-IsSched_example : Boots (boot 1 2 descs memory memory memory memory) Booted
boot-IsSched_example =
    boot-IsSched 1 2 descs memory memory memory memory refl (filled 64) (filled 64) (filled 64)
      (filled 64)

wakeup_tasks-IsSched_example : Ends (wakeup_tasks s2) (λ _ s'.
    ((i' : IsSched s') × Quiet s' i') × (s'.dispatched ≡ s2.dispatched) × (s'.clock ≡ s2.clock))
wakeup_tasks-IsSched_example = wakeup_tasks-IsSched s2 s2-ready.0.0

-- The entry of a task.
abbrev entry : Option Task → Task
entry none = zero_task
entry (some t) = t

abbrev task_at : Sched → ℕ → Task
task_at s i = entry (get_elem? s.tasks i)

task0 : get_elem? s2.tasks 0 ≡ some (task_at s2 0)
unfolding s2
task0 = refl

used0 : is_unallocated (task_at s2 0).state ≡ false
unfolding s2
used0 = refl

awake0 : (task_at s2 0).sleep_loc ≡ null
unfolding s2
awake0 = refl

abbrev IsBlocked : Unit {0} → Sched → Type 0
IsBlocked _ s' =
    IsSched s'
    × (s'.dispatched ≡ s2.dispatched)
    × ((u : Task) × (get_elem? s'.tasks 0 ≡ some u)
        × (u.state ≡ blocked)
        × (u.ready_loc ≡ null)
        × (u.sleep_loc ≡ null))

sched_block-IsSched_example : Ends (sched_block 0 s2) IsBlocked
sched_block-IsSched_example = sched_block-IsSched s2-ready.0.0 0 (task_at s2 0) task0 used0

-- The first task is blocked.
unfoldable s3 : Sched
unfolding s2 sched_block block_unqueue AllocQueue.remove remove_node free container
s3 = after (sched_block 0 s2)

blocked-IsSched : IsSched (after (sched_block 0 s2))
blocked-IsSched =
    (Ends-get tt (sched_block 0 s2) IsBlocked
      (sched_block-IsSched s2-ready.0.0 0 (task_at s2 0) task0 used0)).0

s3-sched : IsSched s3
unfolding s3
s3-sched = blocked-IsSched

blocked0 : get_elem? s3.tasks 0 ≡ some (task_at s3 0)
unfolding s3
blocked0 = refl

sched_wake-IsSched_example : Ends (sched_wake 0 s3) (λ _ s'.
    ((i' : IsSched s') × Woken s3-sched 0 (task_at s3 0) s' i') × (s'.dispatched ≡ s3.dispatched))
sched_wake-IsSched_example = sched_wake-IsSched s3-sched 0 (task_at s3 0) blocked0

sched_sleep-IsSched_example : Ends (sched_sleep 0 5 s2) (λ _ s'.
    IsSched s'
    × (s'.dispatched ≡ s2.dispatched)
    × ((u : Task) × (get_elem? s'.tasks 0 ≡ some u)
        × (u.state ≡ sleeping)
        × (u.wake_time ≡ (now s2 + 5) % 2 ^ 32)
        × (u.sleep_loc ≢ null)
        × (u.ready_loc ≡ null)))
sched_sleep-IsSched_example =
    sched_sleep-IsSched s2-ready.0.0 0 5 (task_at s2 0) task0 used0 awake0 (
      inl (
        alone (sleep_sort (delayed 0 (task_at s2 0) ((now s2 + 5) % 2 ^ 32) s2.tasks)) 0
          s2-ready.0.0.ss s2-ready.0.2))

-- A task function that puts its task to sleep.
abbrev slept : Option (Unit {0} × Sched) → Option (Ret × Sched)
slept none = none
slept (some (_, s)) = some (Ret.sleep, s)

abbrev sleeps : ℕ → ℕ → Call Ret
sleeps func arg s = slept (sched_sleep s.dispatched 5 s)

-- It behaves where no other task is asleep.
sleeps-Behaves :
    (func arg : ℕ) (s : Sched)
    → IsSched s
    → Running s
    → s.sleep_q.list.size ≡ 0
    → Ends (sleeps func arg s) (λ ret s'. Behaves s ret s')
sleeps-Behaves func arg s i (u, at, on, off) none_asleep =
    let used : is_unallocated u.state ≡ false = ap is_unallocated on in
    let placed =
      subst (λ st. StateOk s.dispatched s.dispatched st u.ready_loc u.sleep_loc u.tid) on
        (own_state i s.dispatched u at) in
    let quiet : i.ss ≡ [] = no_cells i.ss (sym i.parts.sleep.linked.count ∙ none_asleep) in
    let end =
      alone (sleep_sort (delayed s.dispatched u ((now s + 5) % 2 ^ 32) s.tasks)) s.dispatched i.ss
        quiet in
    let (_, s', run, (i', d, (w, w_at, st, _, _, ready))) =
      Ends-run (sched_sleep s.dispatched 5 s) _
        (sched_sleep-IsSched i s.dispatched 5 u at used placed.0 (inl end)) in
    rw run (i', d, (w, w_at, (ap is_unallocated st, ready, inl refl)))

-- The first dispatch finds no task asleep.
size_of : Option (Option ℕ × Sched) → ℕ
size_of none = 0
size_of (some (_, s)) = s.sleep_q.list.size

nobody_sleeps : size_of (next_task (after (wakeup_tasks s2))) ≡ 0
unfolding s2 size_of wakeup_tasks wakeup_loop next_task AllocQueue.pop AllocQueue.peek peek_node
    AllocQueue.read free container
nobody_sleeps = refl

s2-Owes : Owes sleeps s2
unfolding size_of
s2-Owes s1 s j t e1 e2 at i r =
    let woken : after (wakeup_tasks s2) ≡ s1 = ap after e1 in
    let size : s.sleep_q.list.size ≡ 0 =
      sym (ap size_of (ap next_task woken ∙ e2)) ∙ nobody_sleeps in
    sleeps-Behaves t.func t.arg s i r size

two_starts : Reach sleeps s0 s2
unfolding s2
two_starts = next (next here (start 7 0 (some 0) refl)) (start 8 0 (some 1) refl)

Reach-dispatch_example :
    (IsSched s2 × (s2.dispatched ≡ max_num_tasks))
    × Ends (sched_dispatch sleeps s2) (λ _ s''. IsSched s'' × (s''.dispatched ≡ max_num_tasks))
Reach-dispatch_example = Reach-dispatch sleeps s0-boots.0.0 s0-boots.2 two_starts s2-Owes

-- The first task is dispatched.
unfoldable pub s4 : Sched
unfolding s2 next_task AllocQueue.pop AllocQueue.peek peek_node AllocQueue.read free container
s4 = after (next_task s2)

chosen0 : result none (next_task s2) ≡ some 0
unfolding s4
chosen0 = refl

pub s4-chosen : Chosen s2 s2-ready.0.0 (some 0) s4
unfolding s4
s4-chosen =
    subst (λ o. Chosen s2 s2-ready.0.0 o (after (next_task s2))) chosen0
      (Ends-get none (next_task s2) (λ o s'. Chosen s2 s2-ready.0.0 o s')
        (next_task-Chosen s2 s2-ready.0.0 s2-ready.1))

finish-IsSched_example : Ends (finish 0 yield s4) (λ _ s'.
    ((i' : IsSched s') × (i'.ss ≡ s4-chosen.0.3.0.ss)
      × Requeued 0 yield s4-chosen.2.0 s4-chosen.0.3.0.rs i'.rs)
    × (s'.dispatched ≡ max_num_tasks)
    × Finished 0 yield s4-chosen.2.0 s')
finish-IsSched_example =
    finish-IsSched s4-chosen.0.3.0 0 s4-chosen.2.0 s4-chosen.2.1 s4-chosen.1 yield
      (ap is_unallocated s4-chosen.2.2, s4-chosen.2.3, inl refl)
