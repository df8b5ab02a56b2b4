-- ===== src/Device/Init.antt =====
-- What the init task starts.
use mathlib.Core.Path.{subst}
use launch_core.Prelude.{
  ℕ, zero, suc, ◌+◌, ◌<◌, ◌≤◌, ◌≡◌, ◌∙◌, refl, sym, ap, Bool, true, false, none, some, List, [],
  ◌∷◌, ◌++◌, ◌==◌, ==_iff, if◌then◌else◌, arith, length, get_elem?, get_elem?-some, Bool-cases, inl,
  inr, Ret,
}
use launch_core.Sched.{Sched, sched_start}
use launch_core.Sched.Moves.{IsSched, Ends-run}
use launch_core.Sched.Calls.{sched_start-IsSched}
use launch_core.Device.{DeviceMap, next, is_success, handle, init_devices, start_tasks, init}

pub record IsMap (m : DeviceMap) : Type 0 where
  pub names : length m.names ≡ m.size
  pub devices : length m.devices ≡ m.size
  pub fits : m.count ≤ m.size

-- The devices from `i` on, `n` of them, that are initialised without an error, each with the task
-- that polls it.
abbrev pub handlers : (ℕ → Ret) → ℕ → ℕ → ℕ → List ℕ → List (ℕ × ℕ)
handlers dev_init poll zero i ds = []
handlers dev_init poll (suc n) i ds =
    let rest = handlers dev_init poll n (i + 1) ds in
    elim (get_elem? ds i) [
      | none ↦ []
      | some dev ↦ if is_success (dev_init dev) then (poll, dev) ∷ rest else rest
    ]

-- Starting tasks never faults.
start_tasks-IsSched :
    (ts : List (ℕ × ℕ)) (t : Sched)
    → IsSched t
    → (t' : Sched) × (start_tasks ts t ≡ some t') × IsSched t' × (t'.dispatched ≡ t.dispatched)
unfolding start_tasks
start_tasks-IsSched [] t i = (t, refl, i, refl)
start_tasks-IsSched ((func, arg) ∷ ts) t i =
    let (_, t1, run, ((i1, _), d1)) =
      Ends-run (sched_start func arg t) _ (sched_start-IsSched i func arg) in
    let (t', run', i', d') = start_tasks-IsSched ts t1 i1 in (t', rw (run, run') refl, i', d' ∙ d1)

next_end :
    (m : DeviceMap) (i : ℕ)
    → (i == m.count) ≡ true
    → next (record m { i = i }) ≡ (none, record m { i = 0 })
unfolding next
next_end m i e = rw e refl

next_more :
    (m : DeviceMap) (i dev : ℕ)
    → (i == m.count) ≡ false
    → get_elem? m.devices i ≡ some dev
    → next (record m { i = i }) ≡ (some dev, record m { i = i + 1 })
unfolding next
next_more m i dev e at = rw (e, at) refl

append_if :
    (b : Bool) (x : ℕ × ℕ) (xs ys : List (ℕ × ℕ))
    → (if b then x ∷ xs else xs) ++ ys ≡ (if b then x ∷ (xs ++ ys) else xs ++ ys)
append_if true x xs ys = refl
append_if false x xs ys = refl

more_left : (i n c : ℕ) → i + suc n ≡ c → (i == c) ≡ false
more_left i n c e = ground arith

module _ (dev_init : ℕ → Ret) (poll : ℕ) where
  -- One device, at the state that the loop is in.
  handled :
      (dev : ℕ) (t : Sched)
      → IsSched t
      → (t' : Sched) × (handle poll (dev_init dev) dev t ≡ some t')
        × IsSched t'
        × (t'.dispatched ≡ t.dispatched)
        × ((ts : List (ℕ × ℕ))
            → start_tasks (if is_success (dev_init dev) then (poll, dev) ∷ ts else ts) t
              ≡ start_tasks ts t')
  unfolding handle start_tasks
  handled dev t i = elim (Bool-cases (is_success (dev_init dev))) [
    | inr o ↦ (t, rw o refl, i, refl, λ ts. rw o refl)
    | inl o ↦
        let (_, t1, run, ((i1, _), d1)) =
          Ends-run (sched_start poll dev t) _ (sched_start-IsSched i poll dev) in
        (t1, rw (o, run) refl, i1, d1, λ ts. rw (o, run) refl)
  ]

  handlers_step :
      (ds : List ℕ) (n i dev : ℕ)
      → get_elem? ds i ≡ some dev
      → handlers dev_init poll (suc n) i ds ≡ (
          if is_success (dev_init dev)
          then (poll, dev) ∷ handlers dev_init poll n (i + 1) ds
          else handlers dev_init poll n (i + 1) ds)
  handlers_step ds n i dev at = rw (at, handlers) refl

  -- The loop over the devices ends after the last of them, with the iterator at the first again.
  init_devices-handlers :
      (m : DeviceMap) (n i fuel : ℕ) (t : Sched)
      → IsMap m
      → i + n ≡ m.count
      → n < fuel
      → IsSched t
      → (t' : Sched) × (init_devices dev_init poll fuel (record m { i = i }) t
          ≡ some (record m { i = 0 }, t'))
        × IsSched t'
        × (t'.dispatched ≡ t.dispatched)
        × ((ts : List (ℕ × ℕ))
            → start_tasks (handlers dev_init poll n i m.devices ++ ts) t ≡ start_tasks ts t')
  unfolding init_devices
  init_devices-handlers m n i zero t v sum lt s = absurd (omega (arith, lt))
  init_devices-handlers m zero i (suc fuel) t v sum lt s =
      let last : (i == m.count) ≡ true = (==_iff i m.count).1 (omega (arith, sum)) in
      (
        t,
        rw (next_end m i last, init_devices) (ap (λ x. some (x.1, t)) (next_end m i last)),
        s,
        refl,
        λ ts. refl,
      )
  init_devices-handlers m (suc n) i (suc fuel) t v sum lt s =
      let more : (i == m.count) ≡ false = more_left i n m.count sum in
      let (dev, at) = get_elem?-some m.devices i (omega (arith, v.devices, v.fits, sum)) in
      let step = next_more m i dev more at in
      let (t1, run, s1, d1, first) = handled dev t s in
      let (t', run', s', d', rest) =
        init_devices-handlers m n (i + 1) fuel t1 v (omega (arith, sum)) (omega (arith, lt)) s1 in
      (
        t',
        rw (step, run, init_devices) (ap (λ x. init_devices dev_init poll fuel x.1 t1) step ∙ run'),
        s',
        d' ∙ d1,
        λ ts.
            ap (λ l. start_tasks (l ++ ts) t) (handlers_step m.devices n i dev at)
            ∙ (ap (λ l. start_tasks l t)
                  (append_if (is_success (dev_init dev)) (poll, dev)
                    (handlers dev_init poll n (i + 1) m.devices) ts)
                ∙ first (handlers dev_init poll n (i + 1) m.devices ++ ts)
                ∙ rest ts),
      )

  -- The init task on a well-formed map whose iterator is at its first device, and on a well-formed
  -- scheduler, gets to its first YIELD: it has started just the tasks that poll the devices that were
  -- initialised without an error, in the map's order, and after them the tasks of the user; the
  -- scheduler is well formed and the iterator is at the first device again.
  pub init-start_tasks :
      {m : DeviceMap} {t : Sched} (tasks : List (ℕ × ℕ))
      → IsMap m
      → m.i ≡ 0
      → IsSched t
      → (t' : Sched) × (init dev_init poll tasks m t ≡ some (m, t'))
        × (start_tasks (handlers dev_init poll m.count 0 m.devices ++ tasks) t ≡ some t')
        × IsSched t'
        × (t'.dispatched ≡ t.dispatched)
  unfolding init
  init-start_tasks {m} {t} tasks v zero_i s =
      let (t1, run, s1, d1, all) =
        init_devices-handlers m m.count 0 (suc m.count) t v (omega arith) (omega arith) s in
      let (t', run', s', d') = start_tasks-IsSched tasks t1 s1 in
      let same : record m { i = 0 } ≡ m = ap (λ k. record m { i = k }) (sym zero_i) in
      let from : init_devices dev_init poll (suc m.count) m t ≡ some (m, t1) =
        subst (λ x. init_devices dev_init poll (suc m.count) x t ≡ some (x, t1)) same run in
      (t', rw (from, run') refl, all tasks ∙ run', s', d' ∙ d1)
