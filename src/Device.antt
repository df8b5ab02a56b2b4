-- ===== src/Device.antt =====
-- device/DeviceMap.h: the map from names to devices, and init/init.h: the task that starts a task for
-- each device and then the tasks of the user. A device is the address of its object.
pub mod Names
pub mod Init
mod Examples
use launch_core.Prelude.{
  ℕ, zero, suc, ◌+◌, Bool, true, false, not, ◌&&◌, Option, none, some, List, [], ◌∷◌, ◌==◌,
  if◌then◌else◌, ltb, get_elem?, set, take, Ret, success, error,
}
use launch_core.Sched.{Sched, sched_start}

-- a name: the characters before its NUL
abbrev pub Name : Type 0
Name = List ℕ

-- class DeviceMap; `i` is the iterator
pub record DeviceMap : Type 0 where
  pub names : List Name
  pub devices : List ℕ
  pub size : ℕ
  pub count : ℕ
  pub i : ℕ

abbrev pub equal : Name → Name → Bool
equal [] [] = true
equal [] (y ∷ ys) = false
equal (x ∷ xs) [] = false
equal (x ∷ xs) (y ∷ ys) = (x == y) && equal xs ys

-- !strncmp(a, b, 64)
unfoldable pub same_name : Name → Name → Bool
same_name a b = equal (take 64 a) (take 64 b)

-- The loop of `get` over `n` more entries from `j` on: the device, or `none` for NULL.
unfoldable pub get_loop : Name → ℕ → ℕ → DeviceMap → Option ℕ
get_loop name zero j m = none
get_loop name (suc n) j m =
    let rest = get_loop name n (suc j) m in
    elim (get_elem? m.names j) [
      | none ↦ none
      | some there ↦ if same_name name there then get_elem? m.devices j else rest
    ]

-- get
unfoldable pub get : Name → DeviceMap → Option ℕ
get name m = get_loop name m.count 0 m

-- next: the device, or `none` for NULL
unfoldable pub next : DeviceMap → Option ℕ × DeviceMap
next m =
    if m.i == m.count
    then (none, record m { i = 0 })
    else (get_elem? m.devices m.i, record m { i = m.i + 1 })

-- add
unfoldable pub add : Name → ℕ → DeviceMap → Ret × DeviceMap
add name dev m = if not (ltb m.count m.size) then (error, m) else (
  success,
  record m {
    names = set m.names m.count name;
    devices = set m.devices m.count dev;
    count = m.count + 1;
  },
)

infixl 5 ◌>>=◌
abbrev ◌>>=◌ : {A B : Type 0} → Option A → (A → Option B) → Option B
none >>= f = none
some a >>= f = f a

abbrev pub is_success : Ret → Bool
is_success success = true
is_success r = false

-- init: a handler for a device that was initialised; what `sched_start` returns is not looked at
unfoldable pub handle : ℕ → Ret → ℕ → Sched → Option Sched
handle poll_device ret dev t =
    if is_success ret then (do (_, t') ← sched_start poll_device dev t; some t') else some t

-- init: the loop over the devices, on fuel. The devices' `init` is an argument, and runs to its end.
unfoldable pub init_devices : (ℕ → Ret) → ℕ → ℕ → DeviceMap → Sched → Option (DeviceMap × Sched)
init_devices dev_init poll_device zero m t = none
init_devices dev_init poll_device (suc fuel) m t = elim ((next m).0) [
  | none ↦ some ((next m).1, t)
  | some dev ↦ do
    t' ← handle poll_device (dev_init dev) dev t
    init_devices dev_init poll_device fuel (next m).1 t'
]

-- init: the loop over the tasks and their arguments
unfoldable pub start_tasks : List (ℕ × ℕ) → Sched → Option Sched
start_tasks [] t = some t
start_tasks ((func, arg) ∷ ts) t = do (_, t') ← sched_start func arg t; start_tasks ts t'

-- init, up to its first YIELD
unfoldable pub init : (ℕ → Ret) → ℕ → List (ℕ × ℕ) → DeviceMap → Sched → Option (DeviceMap × Sched)
init dev_init poll_device tasks m t = do
  (m', t') ← init_devices dev_init poll_device (suc m.count) m t
  t'' ← start_tasks tasks t'
  some (m', t'')
