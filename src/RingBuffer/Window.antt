-- ===== src/RingBuffer/Window.antt =====
-- Runs of bytes round a circular buffer. An index stands for its remainder by the size.
use native.Mathlib.Nat.{mod-add-mod, mod-eq_of_lt, mod-eq-sub-mod, mod-lt}
use native.Mathlib.Decide.{dec_lt}
use launch_core.Prelude.{
  ℕ, zero, suc, ◌+◌, ◌-◌, ◌%◌, ◌≤◌, ◌<◌, ◌≡◌, ◌≢◌, ◌∙◌, refl, sym, ap, ap₂, List, [], ◌∷◌, ◌++◌,
  arith, length, get_or, set, take, drop, get_or-set_self, get_or-set_ne,
}

module _ (size : ℕ) where
  -- the `n` bytes from index `h` on
  abbrev pub window : List ℕ → ℕ → ℕ → List ℕ
  window buf h zero = []
  window buf h (suc n) = get_or buf (h % size) 0 ∷ window buf (suc h) n

  pub length-window : (buf : List ℕ) (h n : ℕ) → length (window buf h n) ≡ n
  length-window buf h zero = refl
  length-window buf h (suc n) = ap suc (length-window buf (suc h) n)

  suc-mod : (a b : ℕ) → a % size ≡ b % size → suc a % size ≡ suc b % size
  suc-mod a b e =
      let step = λ (c : ℕ).
        let shift : suc c % size ≡ (c + 1) % size = ap (λ t. t % size) (omega arith) in
        shift ∙ sym (mod-add-mod c size 1) in
      step a ∙ ap (λ t. (t + 1) % size) e ∙ sym (step b)

  -- A window depends on its start up to the size alone.
  pub window_congr :
      (buf : List ℕ) (a b n : ℕ) → a % size ≡ b % size → window buf a n ≡ window buf b n
  window_congr buf a b zero e = refl
  window_congr buf a b (suc n) e =
      ap₂ ◌∷◌ (ap (λ i. get_or buf i 0) e) (window_congr buf (suc a) (suc b) n (suc-mod a b e))

  pub window_snoc :
      (buf : List ℕ) (h n j : ℕ)
      → h + n ≡ j
      → window buf h (suc n) ≡ window buf h n ++ (get_or buf (j % size) 0 ∷ [])
  window_snoc buf h zero j e = ap (λ i. get_or buf (i % size) 0 ∷ []) (omega arith)
  window_snoc buf h (suc n) j e =
      ap (λ l. get_or buf (h % size) 0 ∷ l) (window_snoc buf (suc h) n j (omega arith))

  pub drop-window :
      (buf : List ℕ) (h n k m j : ℕ)
      → n + k ≡ m
      → h + n ≡ j
      → drop n (window buf h m) ≡ window buf j k
  drop-window buf h zero k m j e f = ap₂ (window buf) (omega arith) (omega arith)
  drop-window buf h (suc n) k zero j e f = absurd (omega arith)
  drop-window buf h (suc n) k (suc m) j e f =
      drop-window buf (suc h) n k m j (omega arith) (omega arith)

  pub take-window : (buf : List ℕ) (h n m : ℕ) → n ≤ m → take n (window buf h m) ≡ window buf h n
  take-window buf h zero m e = refl
  take-window buf h (suc n) zero e = absurd (omega arith)
  take-window buf h (suc n) (suc m) e =
      ap (λ l. get_or buf (h % size) 0 ∷ l) (take-window buf (suc h) n m (omega arith))

  -- Indices less than a whole round apart are different.
  pub mod-ne : (h d : ℕ) → 0 < d → d < size → h % size ≢ (h + d) % size
  mod-ne h d p q = elim (dec_lt (h % size + d) size) [
    | yes r ↦ omega (arith, mod-add-mod h size d, mod-eq_of_lt r, mod-lt h)
    | no r ↦ omega (
      arith,
      mod-add-mod h size d,
      mod-eq-sub-mod {n = h % size + d} {m = size} (omega arith),
      mod-eq_of_lt {n = h % size + d - size} {m = size} (omega (arith, mod-lt h)),
    )
  ]

  -- A write behind a window, less than a round from its start, leaves it alone.
  pub window-set_ne :
      (buf : List ℕ) (h n d j x : ℕ)
      → n ≤ d
      → d < size
      → h + d ≡ j
      → window (set buf (j % size) x) h n ≡ window buf h n
  window-set_ne buf h zero d j x p q e = refl
  window-set_ne buf h (suc n) zero j x p q e = absurd (omega arith)
  window-set_ne buf h (suc n) (suc d) j x p q e =
      ap₂ ◌∷◌ (get_or-set_ne buf x 0 (rw (← e) (λ s. mod-ne h (suc d) (omega arith) q (sym s))))
        (window-set_ne buf (suc h) n d j x (omega arith) (omega arith) (omega arith))

  -- A write just behind a window of less than a round puts the byte at its end.
  pub window-set :
      (buf : List ℕ) (h n j x : ℕ)
      → n < size
      → size ≤ length buf
      → h + n ≡ j
      → window (set buf (j % size) x) h (suc n) ≡ window buf h n ++ (x ∷ [])
  window-set buf h n j x p q e =
      window_snoc (set buf (j % size) x) h n j e
      ∙ ap₂ (λ l y. l ++ (y ∷ [])) (window-set_ne buf h n n j x (omega arith) p e)
          (get_or-set_self buf (j % size) x 0 (omega arith))
