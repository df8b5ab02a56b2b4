-- ===== src/Semaphore.antt =====
-- sync/Semaphore.h: a semaphore that spins, and sync/BlockingSemaphore.h: one that blocks tasks.
pub mod Waiting
mod Examples
use launch_core.Prelude.{
  zero, suc, Bool, true, false, leb, ℕ, ◌+◌, ◌-◌, ◌%◌, ◌^◌, Option, none, some, ◌==◌, if◌then◌else◌,
  Ret, success, error, blocked,
}
use launch_core.Queue.Heap.{Ptr, null}
use launch_core.AllocQueue
use launch_core.AllocQueue.{AllocQueue}
use launch_core.Sched.{Sched, sched_wake, sched_block}

-- Semaphore::release, on `m_val`
unfoldable pub release_spin : ℕ → ℕ
release_spin val = (val + 1) % 2 ^ 32

-- Semaphore::acquire, on `m_val`: the turn in which the exchange succeeds. At 0 the loop turns until
-- another context releases; with none, as in a task that has the processor, it does not end.
unfoldable pub acquire_spin : ℕ → Option ℕ
acquire_spin val = if val == 0 then none else some (val - 1)

-- An integer: `n`, or `-(n + 1)`.
pub data ℤ : Type 0 where
  pos : ℕ → ℤ
  negsuc : ℕ → ℤ

-- the greatest `int`
abbrev pub int_max : ℕ
int_max = 2147483647

abbrev pub fits : ℤ → Bool
fits (pos n) = leb n int_max
fits (negsuc n) = leb n int_max

abbrev pub plus_one : ℤ → ℤ
plus_one (pos n) = pos (suc n)
plus_one (negsuc zero) = pos 0
plus_one (negsuc (suc n)) = negsuc n

abbrev pub minus_one : ℤ → ℤ
minus_one (pos zero) = negsuc 0
minus_one (pos (suc n)) = pos n
minus_one (negsuc n) = negsuc (suc n)

abbrev pub is_zero : ℤ → Bool
is_zero (pos n) = n == 0
is_zero (negsuc n) = false

-- An operation on an `int`; to overflow is a fault.
abbrev pub as_int : ℤ → Option ℤ
as_int z = if fits z then some z else none

-- class BlockingSemaphore
pub record BlockingSemaphore : Type 0 where
  pub queue : AllocQueue ℕ
  pub lock : ℕ
  pub count : ℤ

-- A method: the code, the semaphore and the scheduler; `none` is a fault or a loop without an end.
abbrev pub Method : Type 0
Method = BlockingSemaphore → Sched → Option (Ret × BlockingSemaphore × Sched)

infixl 5 ◌>>=◌
abbrev ◌>>=◌ : {A B : Type 0} → Option A → (A → Option B) → Option B
none >>= f = none
some a >>= f = f a

-- BlockingSemaphore::release: the oldest of the tasks that wait, if there is one, is woken
unfoldable pub wake_oldest : BlockingSemaphore → Sched → Option (BlockingSemaphore × Sched)
wake_oldest b t =
    let waiting = AllocQueue.peek b.queue in
    if waiting == null then some (b, t) else (do
      (_, q) ← AllocQueue.pop b.queue
      tid ← AllocQueue.read waiting q
      (_, t') ← sched_wake tid t
      some (record b { queue = q }, t'))

-- BlockingSemaphore::release
unfoldable pub release : Method
release b t = do
  lock ← acquire_spin b.lock
  count ← as_int (plus_one b.count)
  (b', t') ← wake_oldest (record b { lock = lock; count = count }) t
  some (success, record b' { lock = release_spin b'.lock }, t')

-- BlockingSemaphore::acquire up to its return or its block. A task that is woken goes on at the top
-- of the loop, and so does the same again.
unfoldable pub acquire : Method
acquire b t = do
  lock ← acquire_spin b.lock
  if is_zero b.count
      then (do
        (p, q) ← AllocQueue.push t.dispatched b.queue
        if p == null then some (error, record b { queue = q; lock = lock }, t) else (do
          (_, t') ← sched_block t.dispatched t
          some (blocked, record b { queue = q; lock = release_spin lock }, t')))
      else (do
        count ← as_int (minus_one b.count)
        some (success, record b { lock = release_spin lock; count = count }, t))
