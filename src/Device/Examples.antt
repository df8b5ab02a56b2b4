-- ===== src/Device/Examples.antt =====
-- A map with room for two devices, and the theorems at it.
use launch_core.Prelude.{◌<◌, ◌≡◌, ◌⊎◌, refl, some, [], ◌∷◌, ◌++◌, arith, success, error}
use launch_core.Sched.{Sched}
use launch_core.Sched.Moves.{IsSched}
use launch_core.Sched.Examples.{s2, s2-ready}
use launch_core.Device.{Name, DeviceMap, same_name, get, add, start_tasks, init}
use launch_core.Device.Init.{IsMap, handlers, init-start_tasks}
use launch_core.Device.Names.{or_else, only_if, get-add}

-- "imu" and "gps"
abbrev imu : Name
imu = 105 ∷ 109 ∷ 117 ∷ []

abbrev gps : Name
gps = 103 ∷ 112 ∷ 115 ∷ []

abbrev one : DeviceMap
one = record { names = imu ∷ [] ∷ []; devices = 7 ∷ 0 ∷ []; size = 2; count = 1; i = 0 }

one-IsMap : IsMap one
one-IsMap = omega arith

finds : get gps (add gps 8 one).1 ≡ some 8
unfolding get add launch_core.Device.get_loop same_name
finds = refl

get-add_example :
    ((one.count < one.size)
      × ((add gps 8 one).0 ≡ success)
      × IsMap (add gps 8 one).1
      × ((k : Name) → get k (add gps 8 one).1 ≡ or_else (get k one) (only_if (same_name k gps) 8)))
    ⊎ ((one.count ≡ one.size) × (add gps 8 one ≡ (error, one)))
get-add_example = get-add gps 8 one-IsMap

-- Every device is initialised without an error; 20 polls a device, and the user has the task 30.
init-start_tasks_example :
    (t' : Sched) × (init (λ d. success) 20 ((30, 1) ∷ []) one s2 ≡ some (one, t'))
    × (start_tasks (handlers (λ d. success) 20 1 0 one.devices ++ ((30, 1) ∷ [])) s2 ≡ some t')
    × IsSched t'
    × (t'.dispatched ≡ s2.dispatched)
init-start_tasks_example =
    init-start_tasks (λ d. success) 20 ((30, 1) ∷ []) one-IsMap refl s2-ready.0.0
