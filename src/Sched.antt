-- ===== src/Sched.antt =====
-- sched/sched.cpp and sched/sched.h: the cooperative scheduler.
pub mod Cells
pub mod Places
pub mod Settle
pub mod Moves
pub mod Oldest
pub mod Calls
pub mod Suspend
pub mod Dispatch
pub mod Finish
pub mod Turns
pub mod Reach
pub mod Examples
use launch_core.Prelude.{
  ℕ, zero, suc, ◌+◌, ◌%◌, ◌^◌, Bool, true, false, not, Option, none, some, List, [], ◌∷◌, ◌==◌,
  if◌then◌else◌, ltb, leb, get_elem?, set, replicate, Ret, error,
}
use launch_core.Queue.Heap.{Ptr, null, Heap}
use launch_core.Pool.{Descriptor}
use launch_core.AllocQueue
use launch_core.AllocQueue.{AllocQueue}

-- state_t
pub data TaskState : Type 0 where
  unallocated active sleeping blocked : TaskState

-- struct task_s. The function and its argument are handles.
pub record Task : Type 0 where
  pub state : TaskState
  pub func : ℕ
  pub arg : ℕ
  pub tid : ℕ
  pub wake_time : ℕ
  pub ready_loc : Ptr
  pub sleep_loc : Ptr

-- The globals of sched.cpp. A `task_t*` is an index into `tasks`. `clock` lists what the time
-- function returns from its first call on, and `calls` counts these.
pub record Sched : Type 0 where
  pub dispatched : ℕ
  pub tasks : List Task
  pub ready_q : AllocQueue ℕ
  pub sleep_q : AllocQueue ℕ
  pub clock : ℕ → ℕ
  pub calls : ℕ

abbrev pub max_num_tasks : ℕ
max_num_tasks = 64

-- A call of the scheduler; `none` is a fault, such as a TID out of bounds.
abbrev pub Call : Type 0 → Type 0
Call A = Sched → Option (A × Sched)

infixl 5 ◌>>=◌
abbrev ◌>>=◌ : {A B : Type 0} → Option A → (A → Option B) → Option B
none >>= f = none
some a >>= f = f a

-- `get_time()`, and the state after it
abbrev pub now : Sched → ℕ
now s = s.clock s.calls

abbrev pub tick : Sched → Sched
tick s = record s { calls = suc s.calls }

-- dummy_time
unfoldable pub dummy_time : ℕ → ℕ
dummy_time call = 0

-- A task before anything has run: static storage is zero.
abbrev pub zero_task : Task
zero_task = record {
  state = unallocated;
  func = 0;
  arg = 0;
  tid = 0;
  wake_time = 0;
  ready_loc = null;
  sleep_loc = null;
}

-- The globals at start-up, with the addresses of the two queues' pools and the memory of the queues.
unfoldable pub boot :
    Ptr → Ptr → List Descriptor → Heap ℕ → Heap Ptr → Heap ℕ → Heap Ptr → Option Sched
boot r_self s_self ds r_heap r_nodes s_heap s_nodes = do
  ready_q ← AllocQueue.alloc_queue r_self ds max_num_tasks r_heap r_nodes
  sleep_q ← AllocQueue.alloc_queue s_self ds max_num_tasks s_heap s_nodes
  some (record {
    dispatched = max_num_tasks;
    tasks = replicate max_num_tasks zero_task;
    ready_q = ready_q;
    sleep_q = sleep_q;
    clock = dummy_time;
    calls = 0;
  })

-- sched_init; NULL is `none`
unfoldable pub sched_init : Option (ℕ → ℕ) → Sched → Bool × Sched
sched_init none s = (false, s)
sched_init (some func) s = (true, record s { clock = func; calls = 0 })

-- sched_time
unfoldable pub sched_time : Sched → ℕ × Sched
sched_time s = (now s, tick s)

-- sleep_sort, on the table that its pointers point into
abbrev pub entry_wake : Option Task → ℕ
entry_wake none = 0
entry_wake (some t) = t.wake_time

abbrev pub wake_of : List Task → ℕ → ℕ
wake_of ts i = entry_wake (get_elem? ts i)

unfoldable pub sleep_sort : List Task → ℕ → ℕ → Bool
sleep_sort ts fst snd = ltb (wake_of ts fst) (wake_of ts snd)

abbrev pub is_unallocated : TaskState → Bool
is_unallocated unallocated = true
is_unallocated s = false

abbrev pub is_active : TaskState → Bool
is_active active = true
is_active s = false

abbrev pub is_error : Ret → Bool
is_error error = true
is_error r = false

abbrev pub is_idle : TaskState → Bool
is_idle sleeping = true
is_idle blocked = true
is_idle s = false

-- The loop of sched_start over the tasks from `i` on: the first that is unallocated.
unfoldable pub find_unused : List Task → ℕ → Option (ℕ × Task)
find_unused [] i = none
find_unused (t ∷ ts) i = if is_unallocated t.state then some (i, t) else find_unused ts (suc i)

-- sched_start; `none` is -1
unfoldable pub sched_start : ℕ → ℕ → Call (Option ℕ)
sched_start func arg s = elim (find_unused s.tasks 0) [
  | none ↦ some (none, s)
  | some (i, t) ↦ do
    (loc, q) ← AllocQueue.push i s.ready_q
    some (
      some i,
      record s {
        tasks = set s.tasks i (record t {
          state = active;
          func = func;
          arg = arg;
          tid = i;
          ready_loc = loc;
          sleep_loc = null;
        });
        ready_q = q;
      },
    )
]

-- The loop of _sched_wakeup_tasks, on fuel. Each round takes one task off the sleep queue.
unfoldable pub wakeup_loop : ℕ → Call (Unit {0})
wakeup_loop zero s = none
wakeup_loop (suc fuel) s =
    let p = AllocQueue.peek s.sleep_q in
    if p == null then some (tt, s) else do
      i ← AllocQueue.read p s.sleep_q
      t ← get_elem? s.tasks i
      let woken = do
        (_, sleep_q) ← AllocQueue.pop s.sleep_q
        (loc, ready_q) ← AllocQueue.push i s.ready_q
        wakeup_loop fuel (record (tick s) {
          tasks = set s.tasks i (record t { state = active; sleep_loc = null; ready_loc = loc });
          ready_q = ready_q;
          sleep_q = sleep_q;
        })
      if leb t.wake_time (now s) then woken else some (tt, tick s)

unfoldable pub wakeup_tasks : Call (Unit {0})
wakeup_tasks s = wakeup_loop (suc (AllocQueue.size s.sleep_q)) s

-- sched_sleep: off the queue that the task is on. `sleep_loc` keeps its value.
unfoldable pub sleep_unqueue : ℕ → Task → Call (Unit {0})
sleep_unqueue tid t s =
    if not (null == t.sleep_loc)
    then (do (_, q) ← AllocQueue.remove t.sleep_loc s.sleep_q; some (tt, record s { sleep_q = q }))
    else if not (null == t.ready_loc)
    then (do
      (_, q) ← AllocQueue.remove t.ready_loc s.ready_q
      some (tt, record s { tasks = set s.tasks tid (record t { ready_loc = null }); ready_q = q }))
    else some (tt, s)

-- sched_sleep
unfoldable pub sched_sleep : ℕ → ℕ → Call (Unit {0})
sched_sleep tid time s = do
  t ← get_elem? s.tasks tid
  (_, s') ← sleep_unqueue tid t s
  t' ← get_elem? s'.tasks tid
  let u = record t' { state = sleeping; wake_time = (now s' + time) % 2 ^ 32 }
  let tasks = set s'.tasks tid u
  (loc, q) ← AllocQueue.push_in_order (sleep_sort tasks) tid s'.sleep_q
  some (tt, record (tick s') { tasks = set tasks tid (record u { sleep_loc = loc }); sleep_q = q })

-- sched_wake: off the sleep queue, if the task is on it
unfoldable pub wake_unqueue : Task → Call Task
wake_unqueue t s = if null == t.sleep_loc then some (t, s) else do
  (_, q) ← AllocQueue.remove t.sleep_loc s.sleep_q
  some (record t { sleep_loc = null }, record s { sleep_q = q })

-- sched_wake
unfoldable pub sched_wake : ℕ → Call (Unit {0})
sched_wake tid s = do
  t ← get_elem? s.tasks tid
  if not (is_idle t.state)
      then some (tt, s)
      else if not (null == t.ready_loc)
      then some (tt, s)
      else (do
        (t', s') ← wake_unqueue t s
        (loc, q) ← AllocQueue.push tid s'.ready_q
        some (
          tt,
          record s' {
            tasks = set s'.tasks tid (record t' { ready_loc = loc; state = active });
            ready_q = q;
          },
        ))

-- sched_block: off the queue that the task is on
unfoldable pub block_unqueue : Task → Call Task
block_unqueue t s =
    if not (null == t.ready_loc)
    then (do
      (_, q) ← AllocQueue.remove t.ready_loc s.ready_q
      some (record t { ready_loc = null }, record s { ready_q = q }))
    else if not (null == t.sleep_loc)
    then (do
      (_, q) ← AllocQueue.remove t.sleep_loc s.sleep_q
      some (record t { sleep_loc = null }, record s { sleep_q = q }))
    else some (t, s)

-- sched_block
unfoldable pub sched_block : ℕ → Call (Unit {0})
sched_block tid s = do
  t ← get_elem? s.tasks tid
  (t', s') ← block_unqueue t s
  some (tt, record s' { tasks = set s'.tasks tid (record t' { state = blocked }) })

-- sched_dispatch after the task's function has returned
unfoldable pub finish : ℕ → Ret → Call (Unit {0})
finish i ret s = do
  t ← get_elem? s.tasks i
  if is_error ret
      then some (
        tt,
        record s {
          tasks = set s.tasks i (record t { state = unallocated });
          dispatched = max_num_tasks;
        },
      )
      else if is_active t.state
      then (do
        (loc, q) ← AllocQueue.push i s.ready_q
        some (
          tt,
          record s {
            tasks = set s.tasks i (record t { ready_loc = loc });
            ready_q = q;
            dispatched = max_num_tasks;
          },
        ))
      else some (tt, record s { dispatched = max_num_tasks })

-- sched_dispatch, up to the call of the task: the task, or NULL. It is read through the address
-- that `peek` gave after the node there has been freed.
unfoldable pub next_task : Call (Option ℕ)
next_task s =
    let p = AllocQueue.peek s.ready_q in
    if p == null then some (none, s) else do
      (_, q) ← AllocQueue.pop s.ready_q
      i ← AllocQueue.read p q
      t ← get_elem? s.tasks i
      some (
        some i,
        record s {
          tasks = set s.tasks i (record t { ready_loc = null });
          ready_q = q;
          dispatched = t.tid;
        },
      )

-- The functions of the tasks are not the scheduler's: `run` takes the function and its argument.
module _ (run : ℕ → ℕ → Call Ret) where
  -- sched_dispatch, once the task is chosen
  unfoldable pub run_task : Option ℕ → Call (Unit {0})
  run_task none s = some (tt, record s { dispatched = max_num_tasks })
  run_task (some i) s = do t ← get_elem? s.tasks i; (ret, s') ← run t.func t.arg s; finish i ret s'

  -- sched_dispatch
  unfoldable pub sched_dispatch : Call (Unit {0})
  sched_dispatch s = do (_, s1) ← wakeup_tasks s; (o, s2) ← next_task s1; run_task o s2

  -- `n` rounds of the main loop, which dispatches forever
  unfoldable pub dispatches : ℕ → Call (Unit {0})
  dispatches zero s = some (tt, s)
  dispatches (suc n) s = do (_, s') ← sched_dispatch s; dispatches n s'
