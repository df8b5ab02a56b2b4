-- ===== src/Event/Detection.antt =====
-- When the detectors of events fire.
use launch_core.Prelude.{
  ℕ, suc, ◌+◌, ◌≤◌, ◌<◌, ◌≡◌, refl, sym, ◌∙◌, Bool, true, List, [], ◌∷◌, if◌then◌else◌, ltb, length,
  arith,
}
use launch_core.Event.{Apogee, calculate_apogee, Boost, calculate_boost, Landing, calculate_landing}

-- the detectors over a sequence of samples, the first sample first
abbrev pub apogees : Apogee → List ℕ → Apogee
apogees s [] = s
apogees s (altitude ∷ more) = apogees (calculate_apogee s altitude).1 more

abbrev pub boosts : Boost → List (ℕ × ℕ) → Boost
boosts s [] = s
boosts s ((accel, altitude) ∷ more) = boosts (calculate_boost s accel altitude).1 more

abbrev pub landings : Landing → List (Bool × ℕ × ℕ) → Landing
landings s [] = s
landings s ((past, accel, altitude) ∷ more) =
    landings (calculate_landing s past accel altitude).1 more

abbrev pub highest : ℕ → List ℕ → ℕ
highest top [] = top
highest top (altitude ∷ more) = highest (if ltb top altitude then altitude else top) more

apogee_highest :
    (s : Apogee) (altitude : ℕ)
    → (calculate_apogee s altitude).1.highest
      ≡ (if ltb s.highest altitude then altitude else s.highest)
apogee_highest s altitude = ground arith

-- The apogee detector keeps the highest altitude of the samples, and it fires only at a sample below
-- it.
pub apogees-highest :
    (s : Apogee) (samples : List ℕ)
    → ((apogees s samples).highest ≡ highest s.highest samples)
      × ((altitude : ℕ)
          → (calculate_apogee (apogees s samples) altitude).0 ≡ true
          → altitude < highest s.highest samples)
apogees-highest s [] = (refl, λ altitude fires. ground arith)
apogees-highest s (sample ∷ samples) =
    rw (sym (apogee_highest s sample)) (apogees-highest (calculate_apogee s sample).1 samples)

-- Samples that rise are counted like samples that fall: after four samples that rise one after the
-- other, the first one below them is an apogee.
apogee_early :
    (s : Apogee) (a b c d e : ℕ)
    → s.count ≡ 0
    → s.highest < a
    → a < b
    → b < c
    → c < d
    → e < d
    → ((calculate_apogee (apogees s (a ∷ b ∷ c ∷ d ∷ [])) e).0 ≡ true)
      × ((calculate_apogee (apogees s (a ∷ b ∷ c ∷ d ∷ [])) e).1.detected ≡ true)
apogee_early s a b c d e h ha hb hc hd he = ground (arith, h)

boost_step :
    (s : Boost) (accel altitude n : ℕ)
    → s.count < n
    → n < 5
    → ((calculate_boost s accel altitude).1.count < suc n)
      × ((calculate_boost s accel altitude).1.detected ≡ s.detected)
boost_step s accel altitude n h p = ground arith

landing_step :
    (s : Landing) (past : Bool) (accel altitude n : ℕ)
    → s.count < n
    → n < 5
    → ((calculate_landing s past accel altitude).1.count < suc n)
      × ((calculate_landing s past accel altitude).1.detected ≡ s.detected)
landing_step s past accel altitude n h p = ground arith

boosts_wait :
    (s : Boost) (samples : List (ℕ × ℕ)) (n : ℕ)
    → s.count < n
    → n + length samples ≤ 5
    → (boosts s samples).detected ≡ s.detected
boosts_wait s [] n h p = refl
boosts_wait s ((accel, altitude) ∷ more) n h p =
    let (count, same) = boost_step s accel altitude n h (omega arith) in
    boosts_wait (calculate_boost s accel altitude).1 more (suc n) count (omega arith) ∙ same

landings_wait :
    (s : Landing) (samples : List (Bool × ℕ × ℕ)) (n : ℕ)
    → s.count < n
    → n + length samples ≤ 5
    → (landings s samples).detected ≡ s.detected
landings_wait s [] n h p = refl
landings_wait s ((past, accel, altitude) ∷ more) n h p =
    let (count, same) = landing_step s past accel altitude n h (omega arith) in
    landings_wait (calculate_landing s past accel altitude).1 more (suc n) count (omega arith)
    ∙ same

-- After a sample that does not count, four samples more do not detect a boost or a landing.
boosts-patient :
    (b : Boost) (l : Landing) (pairs : List (ℕ × ℕ)) (triples : List (Bool × ℕ × ℕ))
    → b.count ≡ 0
    → l.count ≡ 0
    → length pairs < 5
    → length triples < 5
    → ((boosts b pairs).detected ≡ b.detected) × ((landings l triples).detected ≡ l.detected)
boosts-patient b l pairs triples hb hl p q = (
  boosts_wait b pairs 1 (omega arith) (omega arith),
  landings_wait l triples 1 (omega arith) (omega arith),
)
