-- ===== src/Vector/Shifts.antt =====
-- What the two loops do to the list of the elements.
use native.Mathlib.Numerals.{unary_clauses}
use launch_core.Prelude.{
  ℕ, zero, suc, ◌-◌, ◌≤◌, ◌<◌, ◌≡◌, refl, ap, ◌∙◌, List, [], ◌∷◌, get_or, set, take, length,
  length-set, size_mod, arith,
}
use launch_core.Vector.{Vector, lshift_loop, rshift_loop}

pub record IsValid {A : Type 0} (v : Vector A) : Type 0 where
  pub array : length v.elements ≡ v.capacity
  pub within : v.len ≤ v.capacity
  pub bound : v.capacity < size_mod

module _ {A : Type 0} where
  abbrev pub contents : Vector A → List A
  contents v = take v.len v.elements

  abbrev pub insert_at : ℕ → A → List A → List A
  insert_at zero x xs = x ∷ xs
  insert_at (suc i) x [] = x ∷ []
  insert_at (suc i) x (y ∷ ys) = y ∷ insert_at i x ys

  abbrev pub remove_at : ℕ → List A → List A
  remove_at i [] = []
  remove_at zero (y ∷ ys) = ys
  remove_at (suc i) (y ∷ ys) = y ∷ remove_at i ys

  rshift_loop-cons :
      (junk : A) (n i : ℕ) (last y : A) (es : List A)
      → rshift_loop junk n (suc i) last (y ∷ es) ≡ y ∷ rshift_loop junk n i last es
  unfolding rshift_loop
  rshift_loop-cons junk zero i last y es = refl
  rshift_loop-cons junk (suc n) i last y es =
      rshift_loop-cons junk n (suc i) (get_or es i junk) y (set es i last)

  take-rshift_loop :
      (junk : A) (n : ℕ) (last : A) (es : List A)
      → n ≤ length es
      → take n (rshift_loop junk n 0 last es) ≡ take n (last ∷ es)
  unfolding rshift_loop
  take-rshift_loop junk zero last es h = refl
  take-rshift_loop junk (suc n) last [] h = absurd (omega arith)
  take-rshift_loop junk (suc n) last (e ∷ es) h =
      ap (take (suc n)) (rshift_loop-cons junk n 0 e last es)
      ∙ ap (λ t. last ∷ t) (take-rshift_loop junk n e es (omega arith))

  pub rshift-insert_at :
      (junk x : A) (len i : ℕ) (es : List A)
      → i ≤ len
      → len < length es
      → take (suc len) (set (rshift_loop junk (len - i) (suc i) (get_or es i junk) es) i x)
        ≡ insert_at i x (take len es)
  rshift-insert_at junk x len i [] p q = absurd (omega arith)
  rshift-insert_at junk x len zero (e ∷ es) p q = simp unary_clauses (
      rw (rshift_loop-cons junk len 0 e e es)
        (ap (λ t. x ∷ t) (take-rshift_loop junk len e es (omega arith))))
  rshift-insert_at junk x zero (suc i) (e ∷ es) p q = absurd (omega arith)
  rshift-insert_at junk x (suc len) (suc i) (e ∷ es) p q = simp unary_clauses (
      rw (rshift_loop-cons junk (len - i) (suc i) (get_or es i junk) e es)
        (ap (λ t. e ∷ t) (rshift-insert_at junk x len i es (omega arith) (omega arith))))

  lshift_loop-cons :
      (junk : A) (n i : ℕ) (y : A) (es : List A)
      → lshift_loop junk n (suc i) (y ∷ es) ≡ y ∷ lshift_loop junk n i es
  unfolding lshift_loop
  lshift_loop-cons junk zero i y es = refl
  lshift_loop-cons junk (suc n) i y es =
      lshift_loop-cons junk n (suc i) y (set es i (get_or es (suc i) junk))

  take-lshift_loop :
      (junk : A) (n : ℕ) (e : A) (es : List A)
      → n ≤ length es
      → take n (lshift_loop junk n 0 (e ∷ es)) ≡ take n es
  unfolding lshift_loop
  take-lshift_loop junk zero e es h = refl
  take-lshift_loop junk (suc n) e [] h = absurd (omega arith)
  take-lshift_loop junk (suc n) e (f ∷ es) h =
      ap (take (suc n)) (lshift_loop-cons junk n 0 f (f ∷ es))
      ∙ ap (λ t. f ∷ t) (take-lshift_loop junk n f es (omega arith))

  pub lshift-remove_at :
      (junk : A) (len i : ℕ) (es : List A)
      → i ≤ len
      → len < length es
      → take len (lshift_loop junk (len - i) i es) ≡ remove_at i (take (suc len) es)
  lshift-remove_at junk len i [] p q = absurd (omega arith)
  lshift-remove_at junk len zero (e ∷ es) p q =
      simp unary_clauses (take-lshift_loop junk len e es (omega arith))
  lshift-remove_at junk zero (suc i) (e ∷ es) p q = absurd (omega arith)
  lshift-remove_at junk (suc len) (suc i) (e ∷ es) p q = simp unary_clauses (
      ap (take (suc len)) (lshift_loop-cons junk (len - i) i e es)
      ∙ ap (λ t. e ∷ t) (lshift-remove_at junk len i es (omega arith) (omega arith)))

  pub length-rshift_loop :
      (junk : A) (n i : ℕ) (last : A) (es : List A)
      → length (rshift_loop junk n i last es) ≡ length es
  unfolding rshift_loop
  length-rshift_loop junk zero i last es = refl
  length-rshift_loop junk (suc n) i last es =
      length-rshift_loop junk n (suc i) (get_or es i junk) (set es i last) ∙ length-set es i last

  pub length-lshift_loop :
      (junk : A) (n i : ℕ) (es : List A) → length (lshift_loop junk n i es) ≡ length es
  unfolding lshift_loop
  length-lshift_loop junk zero i es = refl
  length-lshift_loop junk (suc n) i es =
      length-lshift_loop junk n (suc i) (set es i (get_or es (suc i) junk))
      ∙ length-set es i (get_or es (suc i) junk)
