-- ===== src/Prelude/Slices.antt =====
-- Runs of bytes in a buffer: `memcpy` into it, `memset`, and the bytes read back out of it.
use Prim.Native.Nat.{ℕ, zero, suc, ◌+◌, ◌≤◌}
use mathlib.Core.Path.{◌≡◌, refl, sym, ap, ap₂, ◌∙◌}
use mathlib.Core.List.{List, [], ◌∷◌, ◌++◌}
use native.Mathlib.Omega.{arith}
use launch_core.Prelude.Lists.{length, take, drop, length-take, length-drop}

module _ {ℓ} {A : Type ℓ} where
  -- memcpy(buf + i, src, length src), within the buffer
  abbrev pub blit : List A → ℕ → List A → List A
  blit [] i src = []
  blit (x ∷ xs) zero [] = x ∷ xs
  blit (x ∷ xs) zero (y ∷ ys) = y ∷ blit xs zero ys
  blit (x ∷ xs) (suc i) src = x ∷ blit xs i src

  -- the n elements from index i on
  abbrev pub slice : List A → ℕ → ℕ → List A
  slice xs i n = take n (drop i xs)

  pub length-blit : (xs : List A) (i : ℕ) (src : List A) → length (blit xs i src) ≡ length xs
  length-blit [] i src = refl
  length-blit (x ∷ xs) zero [] = refl
  length-blit (x ∷ xs) zero (y ∷ ys) = ap suc (length-blit xs zero ys)
  length-blit (x ∷ xs) (suc i) src = ap suc (length-blit xs i src)

  pub length-slice : (xs : List A) (i n : ℕ) → i + n ≤ length xs → length (slice xs i n) ≡ n
  length-slice xs i n h = omega (arith, length-take n (drop i xs), length-drop i xs)

  take-blit-zero :
      (xs src : List A) → length src ≤ length xs → take (length src) (blit xs zero src) ≡ src
  take-blit-zero xs [] h = refl
  take-blit-zero [] (y ∷ ys) h = absurd (omega arith)
  take-blit-zero (x ∷ xs) (y ∷ ys) h = ap (λ l. y ∷ l) (take-blit-zero xs ys (omega arith))

  -- What was copied is read back.
  pub slice-blit_self :
      (xs : List A) (i : ℕ) (src : List A)
      → i + length src ≤ length xs
      → slice (blit xs i src) i (length src) ≡ src
  slice-blit_self xs zero src h = take-blit-zero xs src (omega arith)
  slice-blit_self [] (suc i) [] h = refl
  slice-blit_self [] (suc i) (y ∷ ys) h = absurd (omega arith)
  slice-blit_self (x ∷ xs) (suc i) src h = slice-blit_self xs i src (omega arith)

  -- A copy leaves what stands before it alone.
  pub take-blit :
      (xs : List A) (n i : ℕ) (src : List A) → n ≤ i → take n (blit xs i src) ≡ take n xs
  take-blit xs zero i src h = refl
  take-blit [] (suc n) i src h = refl
  take-blit (x ∷ xs) (suc n) zero src h = absurd (omega arith)
  take-blit (x ∷ xs) (suc n) (suc i) src h = ap (λ l. x ∷ l) (take-blit xs n i src (omega arith))

  pub slice-blit_before :
      (xs : List A) (i n j : ℕ) (src : List A)
      → i + n ≤ j
      → slice (blit xs j src) i n ≡ slice xs i n
  slice-blit_before xs zero n j src h = take-blit xs n j src (omega arith)
  slice-blit_before [] (suc i) n j src h = refl
  slice-blit_before (x ∷ xs) (suc i) n zero src h = absurd (omega arith)
  slice-blit_before (x ∷ xs) (suc i) n (suc j) src h = slice-blit_before xs i n j src (omega arith)

  pub blit-nil : (xs : List A) (j : ℕ) → blit xs j [] ≡ xs
  blit-nil [] j = refl
  blit-nil (x ∷ xs) zero = refl
  blit-nil (x ∷ xs) (suc j) = ap (λ l. x ∷ l) (blit-nil xs j)

  -- A copy leaves what stands behind it alone.
  pub drop-blit :
      (xs : List A) (i j : ℕ) (src : List A)
      → j + length src ≤ i
      → drop i (blit xs j src) ≡ drop i xs
  drop-blit [] i j src h = refl
  drop-blit (x ∷ xs) i zero [] h = refl
  drop-blit (x ∷ xs) zero zero (y ∷ ys) h = absurd (omega arith)
  drop-blit (x ∷ xs) (suc i) zero (y ∷ ys) h = drop-blit xs i zero ys (omega arith)
  drop-blit (x ∷ xs) zero (suc j) src h = absurd (omega arith)
  drop-blit (x ∷ xs) (suc i) (suc j) src h = drop-blit xs i j src (omega arith)

  -- Two runs that stand side by side are one run.
  pub take_add :
      (xs : List A) (n m k : ℕ)
      → n + m ≡ k
      → n ≤ length xs
      → take n xs ++ take m (drop n xs) ≡ take k xs
  take_add xs zero m k e h = ap (λ t. take t xs) (omega arith)
  take_add [] (suc n) m k e h = absurd (omega arith)
  take_add (x ∷ xs) (suc n) m zero e h = absurd (omega arith)
  take_add (x ∷ xs) (suc n) m (suc k) e h =
      ap (λ l. x ∷ l) (take_add xs n m k (omega arith) (omega arith))

  pub drop_add : (xs : List A) (n m k : ℕ) → n + m ≡ k → drop m (drop n xs) ≡ drop k xs
  drop_add xs zero m k e = ap (λ t. drop t xs) (omega arith)
  drop_add [] (suc n) zero zero e = refl
  drop_add [] (suc n) zero (suc k) e = refl
  drop_add [] (suc n) (suc m) zero e = absurd (omega arith)
  drop_add [] (suc n) (suc m) (suc k) e = refl
  drop_add (x ∷ xs) (suc n) m zero e = absurd (omega arith)
  drop_add (x ∷ xs) (suc n) m (suc k) e = drop_add xs n m k (omega arith)

  pub slice_add :
      (xs : List A) (i n j m k : ℕ)
      → i + n ≡ j
      → n + m ≡ k
      → j ≤ length xs
      → slice xs i n ++ slice xs j m ≡ slice xs i k
  slice_add xs i n j m k e f h =
      ap (λ l. slice xs i n ++ take m l) (sym_drop)
      ∙ take_add (drop i xs) n m k f (omega (arith, length-drop i xs))
    where
      sym_drop : drop j xs ≡ drop n (drop i xs)
      sym_drop = sym (drop_add xs i n j e)

  take-take : (n m : ℕ) (xs : List A) → n ≤ m → take n (take m xs) ≡ take n xs
  take-take zero m xs h = refl
  take-take (suc n) zero xs h = absurd (omega arith)
  take-take (suc n) (suc m) [] h = refl
  take-take (suc n) (suc m) (x ∷ xs) h = ap (λ l. x ∷ l) (take-take n m xs (omega arith))

  drop-take : (n m k : ℕ) (xs : List A) → n + k ≡ m → drop n (take m xs) ≡ take k (drop n xs)
  drop-take zero m k xs e = ap (λ t. take t xs) (omega arith)
  drop-take (suc n) zero k xs e = absurd (omega arith)
  drop-take (suc n) (suc m) zero [] e = refl
  drop-take (suc n) (suc m) (suc k) [] e = refl
  drop-take (suc n) (suc m) k (x ∷ xs) e = drop-take n m k xs (omega arith)

  -- A run up to `w`, extended by what is copied to `w`.
  pub slice-blit_append :
      (xs : List A) (i n w m : ℕ) (src : List A)
      → i + n ≡ w
      → n + length src ≡ m
      → w + length src ≤ length xs
      → slice (blit xs w src) i m ≡ slice xs i n ++ src
  slice-blit_append xs i n w m src e f h =
      sym (slice_add (blit xs w src) i n w (length src) m e f (omega (arith, length-blit xs w src)))
      ∙ ap₂ ◌++◌ (slice-blit_before xs i n w src (omega arith)) (slice-blit_self xs w src h)

  -- The first `n` of a run, and the rest of it.
  pub take-slice : (xs : List A) (i n m : ℕ) → n ≤ m → take n (slice xs i m) ≡ slice xs i n
  take-slice xs i n m h = take-take n m (drop i xs) h

  pub drop-slice :
      (xs : List A) (i n m j k : ℕ) → n + k ≡ m → i + n ≡ j → drop n (slice xs i m) ≡ slice xs j k
  drop-slice xs i n m j k e f = drop-take n m k (drop i xs) e ∙ ap (take k) (drop_add xs i n j f)

  -- A copy that ends where a run begins is put in front of the run.
  pub slice-blit_prepend :
      (xs : List A) (i j n m : ℕ) (src : List A)
      → i + length src ≡ j
      → length src + n ≡ m
      → j ≤ length xs
      → slice (blit xs i src) i m ≡ src ++ slice xs j n
  slice-blit_prepend xs i j n m src e f h =
      sym (slice_add (blit xs i src) i (length src) j n m e f (omega (arith, length-blit xs i src)))
      ∙ ap₂ ◌++◌ (slice-blit_self xs i src (omega arith))
          (ap (take n) (drop-blit xs j i src (omega arith)))

  pub slice-blit_behind :
      (xs : List A) (i j n : ℕ) (src : List A)
      → j + length src ≤ i
      → slice (blit xs j src) i n ≡ slice xs i n
  slice-blit_behind xs i j n src h = ap (take n) (drop-blit xs i j src h)

  pub take-append : (xs ys : List A) → take (length xs) (xs ++ ys) ≡ xs
  take-append [] ys = refl
  take-append (x ∷ xs) ys = ap (λ l. x ∷ l) (take-append xs ys)

  pub drop-append : (xs ys : List A) → drop (length xs) (xs ++ ys) ≡ ys
  drop-append [] ys = refl
  drop-append (x ∷ xs) ys = drop-append xs ys
