-- ===== src/Event/Examples.antt =====
-- The detectors' theorems on a few samples, and tests.
use launch_core.Prelude.{ℕ, ◌≡◌, refl, true, false, [], ◌∷◌}
use launch_core.Event.{boost, register_callback}
use launch_core.Event.Detection.{boosts}

hooks_full : (register_callback {H = ℕ} (1 ∷ 2 ∷ 3 ∷ 4 ∷ 5 ∷ []) 6).0 ≡ false
hooks_full = refl

five_samples :
    (boosts (boost 32768 32768 false) (
      (32900, 32770)
      ∷ (32900, 32780)
      ∷ (32900, 32790)
      ∷ (32900, 32800)
      ∷ (32900, 32810)
      ∷ [])).detected
    ≡ true
five_samples = refl
