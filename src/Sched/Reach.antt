-- ===== src/Sched/Reach.antt =====
-- The states that the scheduler comes to from start-up.
use mathlib.Core.Path.{subst}
use launch_core.Prelude.{
  ◌+◌, ◌%◌, ◌^◌, ℕ, zero, suc, ◌≤◌, ◌<◌, ◌≡◌, inl, ◌∙◌, refl, false, Option, none, some, List, [],
  arith, length, get_elem?, replicate, Ret,
}
use launch_core.Queue.Heap.{Ptr, null, Node, Heap}
use launch_core.Pool.{Descriptor}
use launch_core.AllocQueue.Contents.{alloc_queue-Holds}
use launch_core.Sched.{
  sleep_sort, now, sched_sleep, is_unallocated, Task, Sched, Call, zero_task, boot, max_num_tasks,
  sched_init, sched_start, sched_wake, sched_block, sched_dispatch,
}
use launch_core.Sched.Places.{TaskOk, IsPlaced}
use launch_core.Sched.Moves.{Ends, IsSched}
use launch_core.Sched.Calls.{sched_start-IsSched, sched_wake-IsSched}
use launch_core.Sched.Suspend.{delayed, sched_block-IsSched, sched_sleep-IsSched}
use launch_core.AllocQueue.Order.{AtEnd}
use launch_core.Sched.Finish.{Owes, sched_dispatch-IsSched}

get-replicate : {A : Type 0} (n i : ℕ) (a b : A) → get_elem? (replicate n a) i ≡ some b → a ≡ b
get-replicate zero i a b e = cc
get-replicate (suc n) zero a b e = cc
get-replicate (suc n) (suc i) a b e = get-replicate n i a b e

-- Memory with an object at each address from 1 to `n`.
abbrev pub Objects : {T : Type 0} → ℕ → Heap T → Type 0
Objects {T} n h = (a : Ptr) → 0 < a → a ≤ n → (o : Node T) × (h a ≡ some o)

-- A start that does not fault, with what holds then.
abbrev pub Boots : Option Sched → (Sched → Type 0) → Type 0
Boots none P = ⊥
Boots (some s) P = P s

idle_places : (run : ℕ) → IsPlaced run max_num_tasks (replicate max_num_tasks zero_task) [] []
idle_places run = record {
  others = λ i t ne at.
      subst (TaskOk run [] [] i) (get-replicate max_num_tasks i zero_task t at)
        (inl (refl, refl), inl (refl, refl), (refl, refl));
  off_ready = refl;
  off_sleep = refl;
  ready_inside = λ j le. refl;
  sleep_inside = λ j le. refl;
}

-- A scheduler in which the invariant holds, and every task is unallocated and on no queue.
abbrev pub Booted : Sched → Type 0
Booted s =
    ((i : IsSched s) × (i.rs ≡ []) × (i.ss ≡ []))
    × (s.tasks ≡ replicate max_num_tasks zero_task)
    × (s.dispatched ≡ max_num_tasks)

-- On any memory with room for the queues the start-up does not fault: the invariant holds, all tasks are unallocated, and none is on a queue or dispatched.
pub boot-IsSched :
    (r_self s_self : Ptr) (ds : List Descriptor) (r_heap : Heap ℕ) (r_nodes : Heap Ptr)
    (s_heap : Heap ℕ) (s_nodes : Heap Ptr)
    → length ds ≡ max_num_tasks
    → Objects max_num_tasks r_heap
    → Objects max_num_tasks r_nodes
    → Objects max_num_tasks s_heap
    → Objects max_num_tasks s_nodes
    → Boots (boot r_self s_self ds r_heap r_nodes s_heap s_nodes) Booted
unfolding boot
boot-IsSched r_self s_self ds r_heap r_nodes s_heap s_nodes len a b c d =
    let (rq, r_run, r_holds, r_cap) =
      alloc_queue-Holds r_self ds max_num_tasks r_heap r_nodes len (omega arith) a b in
    let (sq, s_run, s_holds, s_cap) =
      alloc_queue-Holds s_self ds max_num_tasks s_heap s_nodes len (omega arith) c d in
    rw (r_run, s_run)
      (
        (
          record {
            rs = [];
            ss = [];
            parts = record {
              ready = r_holds;
              sleep = s_holds;
              ready_cap = r_cap;
              sleep_cap = s_cap;
              table = refl;
              placed = idle_places max_num_tasks;
            };
          },
          refl,
          refl,
        ),
        refl,
        refl,
      )

-- What happens between two dispatches, and a dispatch. Other code sets the clock, starts tasks, wakes
-- tasks of the table, blocks tasks of it that are allocated, and puts to sleep those that are awake
-- besides and belong at an end of the sleep queue. The task that is dispatched behaves.
pub data Step (run : ℕ → ℕ → Call Ret) : Sched → Sched → Type 0 where
  init : {s : Sched} (func : Option (ℕ → ℕ)) → Step run s (sched_init func s).1
  start :
      {s s' : Sched} (func arg : ℕ) (o : Option ℕ)
      → sched_start func arg s ≡ some (o, s')
      → Step run s s'
  wake :
      {s s' : Sched} (tid : ℕ) (t : Task)
      → get_elem? s.tasks tid ≡ some t
      → sched_wake tid s ≡ some (tt, s')
      → Step run s s'
  block :
      {s s' : Sched} (tid : ℕ) (t : Task)
      → get_elem? s.tasks tid ≡ some t
      → is_unallocated t.state ≡ false
      → sched_block tid s ≡ some (tt, s')
      → Step run s s'
  sleep :
      {s s' : Sched} (tid time : ℕ) (t : Task)
      → get_elem? s.tasks tid ≡ some t
      → is_unallocated t.state ≡ false
      → t.sleep_loc ≡ null
      → ((i : IsSched s)
          → AtEnd (sleep_sort (delayed tid t ((now s + time) % 2 ^ 32) s.tasks)) tid i.ss)
      → sched_sleep tid time s ≡ some (tt, s')
      → Step run s s'
  dispatch : {s s' : Sched} → Owes run s → sched_dispatch run s ≡ some (tt, s') → Step run s s'

pub data Reach (run : ℕ → ℕ → Call Ret) (s : Sched) : Sched → Type 0 where
  here : Reach run s s
  next : {t u : Sched} → Reach run s t → Step run t u → Reach run s u

Ends-at :
    {A : Type 0} (o : Option (A × Sched)) (P : A → Sched → Type 0) {a : A} {s : Sched}
    → Ends o P
    → o ≡ some (a, s)
    → P a s
Ends-at none P e k = absurd e
Ends-at (some (b, t)) P e k = subst (λ o. Ends o P) k e

module _ (run : ℕ → ℕ → Call Ret) where
  Step-IsSched :
      {s s' : Sched}
      → Step run s s'
      → IsSched s
      → s.dispatched ≡ max_num_tasks
      → IsSched s' × (s'.dispatched ≡ max_num_tasks)
  unfolding sched_init
  Step-IsSched (init none) i idle = (i, idle)
  Step-IsSched {s} (init (some func)) i idle = (
    record {
      rs = i.rs;
      ss = i.ss;
      parts = record {
        ready = i.parts.ready;
        sleep = i.parts.sleep;
        ready_cap = i.parts.ready_cap;
        sleep_cap = i.parts.sleep_cap;
        table = i.parts.table;
        placed = i.parts.placed;
      };
    },
    idle,
  )
  Step-IsSched {s} (start func arg o e) i idle =
      let ((k, _), d) = Ends-at (sched_start func arg s) _ (sched_start-IsSched i func arg) e in
      (k, d ∙ idle)
  Step-IsSched {s} (wake tid t at e) i idle =
      let ((k, _), d) = Ends-at (sched_wake tid s) _ (sched_wake-IsSched i tid t at) e in
      (k, d ∙ idle)
  Step-IsSched {s} (block tid t at used e) i idle =
      let (k, d, _) = Ends-at (sched_block tid s) _ (sched_block-IsSched i tid t at used) e in
      (k, d ∙ idle)
  Step-IsSched {s} (sleep tid time t at used awake end e) i idle =
      let (k, d, _) =
        Ends-at (sched_sleep tid time s) _ (sched_sleep-IsSched i tid time t at used awake (end i))
          e in
      (k, d ∙ idle)
  Step-IsSched {s} (dispatch owes e) i idle =
      Ends-at (sched_dispatch run s) _ (sched_dispatch-IsSched run s i idle owes) e

  Reach-IsSched :
      {s s' : Sched}
      → IsSched s
      → s.dispatched ≡ max_num_tasks
      → Reach run s s'
      → IsSched s' × (s'.dispatched ≡ max_num_tasks)
  Reach-IsSched i idle here = (i, idle)
  Reach-IsSched i idle (next r st) = let (k, d) = Reach-IsSched i idle r in Step-IsSched st k d

  -- Between dispatches other code sets the clock, starts tasks, wakes tasks of the table, blocks tasks
  -- that are allocated and puts to sleep tasks that are allocated, awake, and belong at an end of the
  -- sleep queue. From a state with the invariant and no task dispatched, whatever sequence of this and
  -- of dispatches has happened, in each of which the task behaved, the invariant holds and no task
  -- is dispatched; and the next dispatch in which the task behaves neither faults nor loops, and keeps
  -- that. A task behaves if, in the state in which it is dispatched, it ends without a fault, keeps
  -- the invariant and itself dispatched, and is still allocated and off the ready queue, and, if it
  -- returns an error, off the sleep queue.
  pub Reach-dispatch :
      {s s' : Sched}
      → IsSched s
      → s.dispatched ≡ max_num_tasks
      → Reach run s s'
      → Owes run s'
      → (IsSched s' × (s'.dispatched ≡ max_num_tasks))
        × Ends (sched_dispatch run s') (λ _ s''. IsSched s'' × (s''.dispatched ≡ max_num_tasks))
  Reach-dispatch {s} {s'} i idle r owes =
      let (k, d) = Reach-IsSched i idle r in ((k, d), sched_dispatch-IsSched run s' k d owes)
