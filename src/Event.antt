-- ===== src/Event.antt =====
-- event/*.h: the hooks of an event, and the detectors of boost, apogee and landing. A detector reads
-- a sample through its pointers, and a call of `calculate_event` is a step on its state; whether it
-- starts the hooks is its result. A 16-bit reading of a sensor is a number with an offset of 2 ^ 15,
-- so that the order is the one of the signed readings.
pub mod Detection
mod Examples
use launch_core.Prelude.{
  ℕ, zero, suc, ◌+◌, ◌/◌, ◌-◌, ◌%◌, ◌^◌, Bool, true, false, ◌&&◌, ◌||◌, List, [], ◌∷◌, ◌++◌,
  if◌then◌else◌, ltb, leb, ◌==◌, length,
}

abbrev pub num_hooks : ℕ
num_hooks = 5

abbrev pub detect_count : ℕ
detect_count = 5

-- class ApogeeEvent: the altitude is a `uint16_t`
pub record Apogee : Type 0 where
  pub highest : ℕ
  pub count : ℕ
  pub detected : Bool

-- The constructor.
abbrev pub apogee : ℕ → Bool → Apogee
apogee altitude flag = record { highest = altitude; count = 0; detected = flag }

-- `calculate_event`, with the current altitude; `m_count` is a `uint8_t`.
abbrev pub calculate_apogee : Apogee → ℕ → Bool × Apogee
calculate_apogee s altitude =
    if ltb s.highest altitude
    then (false, record s { highest = altitude; count = (s.count + 1) % 2 ^ 8 })
    else if ltb altitude s.highest
    then (let count = (s.count + 1) % 2 ^ 8 in
        if leb detect_count count
        then (true, record s { count = count; detected = true })
        else (false, record s { count = count }))
    else (false, record s { count = 0 })

-- `int16_t` readings: 2 ^ 15 stands for 0, and `/ 2` rounds to 0.
abbrev pub origin : ℕ
origin = 32768

abbrev pub average : ℕ → ℕ → ℕ
average a b = if leb (origin + origin) (a + b) then (a + b) / 2 else (a + b + 1) / 2

-- class BoostEvent
pub record Boost : Type 0 where
  pub avg_accel : ℕ
  pub avg_altitude : ℕ
  pub count : ℕ
  pub detected : Bool

abbrev pub boost : ℕ → ℕ → Bool → Boost
boost accel altitude flag = record {
  avg_accel = accel;
  avg_altitude = altitude;
  count = 0;
  detected = flag;
}

abbrev pub calculate_boost : Boost → ℕ → ℕ → Bool × Boost
calculate_boost s accel altitude =
    if ltb s.avg_accel accel && ltb s.avg_altitude altitude
    then (let count = (s.count + 1) % 2 ^ 8 in
        let averaged = record s {
          avg_accel = average s.avg_accel accel;
          avg_altitude = average s.avg_altitude altitude;
          count = count;
        } in
        if leb detect_count count
        then (true, record averaged { detected = true })
        else (false, averaged))
    else (false, record s { count = 0 })

-- class LandingEvent
pub record Landing : Type 0 where
  pub avg_altitude : ℕ
  pub count : ℕ
  pub detected : Bool

abbrev pub landing : ℕ → Bool → Landing
landing altitude flag = record { avg_altitude = altitude; count = 0; detected = flag }

-- less than `9.81 * 3`, cut to a whole number
abbrev pub is_accel_in_range : ℕ → Bool
is_accel_in_range accel = ltb accel (origin + 29)

-- `altitude_diff` is an `int16_t`: from 2 ^ 15 on it is negative.
abbrev pub is_altitude_in_range : Landing → ℕ → Bool
is_altitude_in_range s altitude =
    let diff = (altitude + 2 ^ 16 - s.avg_altitude) % 2 ^ 16 in ltb diff 50 || leb origin diff

-- `past` is whether the event before it happened.
abbrev pub calculate_landing : Landing → Bool → ℕ → ℕ → Bool × Landing
calculate_landing s past accel altitude =
    if past && is_accel_in_range accel && is_altitude_in_range s altitude
    then (let count = (s.count + 1) % 2 ^ 8 in
        let averaged = record s { avg_altitude = average s.avg_altitude altitude; count = count } in
        if leb detect_count count
        then (true, record averaged { detected = true })
        else (false, averaged))
    else (false, record s { count = 0 })

-- class Event: the hooks in the order in which `call_hooks` starts them
abbrev pub register_callback {ℓ} : {H : Type ℓ} → List H → H → Bool × List H
register_callback callbacks hook =
    if leb num_hooks (length callbacks) then (false, callbacks) else (true, callbacks ++ hook ∷ [])
