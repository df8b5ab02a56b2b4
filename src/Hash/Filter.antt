-- ===== src/Hash/Filter.antt =====
-- The bloom filter has no false negatives.
use mathlib.Core.Path.{subst}
use launch_core.Prelude.{
  ◌⊎◌, inl, inr, sym, ◌++◌, ℕ, zero, suc, ◌/◌, ◌%◌, ◌≡◌, refl, true, List, [], ◌∷◌, ==_iff, arith,
}
use launch_core.Hash.{bit_or, bit_andn, encode, present}

bit_cases : (a : ℕ) → (a % 2 ≡ 0) ⊎ (a % 2 ≡ 1)
bit_cases a = ground arith

-- The lowest bit of `a | b`, and the others.
or_low :
    (n a b : ℕ)
    → (bit_or (suc n) a b / 2 ≡ bit_or n (a / 2) (b / 2))
      × (b % 2 ≡ 1 → bit_or (suc n) a b % 2 ≡ 1)
      × (a % 2 ≡ 1 → bit_or (suc n) a b % 2 ≡ 1)
unfolding bit_or
or_low n a b = elim (bit_cases a) [
  | inl x ↦ elim (bit_cases b) [
    | inl y ↦ rw (x, y) (omega arith, λ e. omega (arith, e), λ e. omega (arith, e))
    | inr y ↦ rw (x, y) (omega arith, λ e. omega arith, λ e. omega arith)
  ]
  | inr x ↦ elim (bit_cases b) [
    | inl y ↦ rw (x, y) (omega arith, λ e. omega arith, λ e. omega arith)
    | inr y ↦ rw (x, y) (omega arith, λ e. omega arith, λ e. omega arith)
  ]
]

-- Every bit of `h` is one of `d`, on the low `n` bits.
abbrev Within : ℕ → ℕ → ℕ → Type 0
Within zero d h = Unit {0}
Within (suc n) d h = (h % 2 ≡ 1 → d % 2 ≡ 1) × Within n (d / 2) (h / 2)

Within-andn : (n d h : ℕ) → Within n d h → bit_andn n d h ≡ 0
unfolding bit_andn
Within-andn zero d h w = refl
Within-andn (suc n) d h w =
    let rest = Within-andn n (d / 2) (h / 2) w.1 in
    elim (bit_cases h) [
      | inl x ↦ rw (x, rest) (omega arith)
      | inr x ↦ let y = w.0 x in rw (x, y, rest) (omega arith)
    ]

Within-or : (n d h : ℕ) → Within n (bit_or n d h) h
Within-or zero d h = tt
Within-or (suc n) d h =
    let (high, low, _) = or_low n d h in
    (low, subst (λ x. Within n x (h / 2)) (sym high) (Within-or n (d / 2) (h / 2)))

Within-keep : (n d k h : ℕ) → Within n d h → Within n (bit_or n d k) h
Within-keep zero d k h w = tt
Within-keep (suc n) d k h w =
    let (high, _, low) = or_low n d k in
    (
      λ e. low (w.0 e),
      subst (λ x. Within n x (h / 2)) (sym high) (Within-keep n (d / 2) (k / 2) (h / 2) w.1),
    )

module _ {T : Type 0} (hash : T → ℕ) where
  -- The word after the objects were encoded one after the other.
  abbrev pub encode_all : List T → ℕ → ℕ
  encode_all [] word = word
  encode_all (y ∷ ys) word = encode_all ys (encode hash y word)

  keep_all :
      (ys : List T) (x : T) (d : ℕ) → Within 32 d (hash x) → Within 32 (encode_all ys d) (hash x)
  unfolding encode
  keep_all [] x d w = w
  keep_all (y ∷ ys) x d w = keep_all ys x (encode hash y d) (Within-keep 32 d (hash y) (hash x) w)

  -- An object that was encoded, whatever was encoded before and after it, may be present: the filter
  -- never says that it is certainly not.
  pub present-encode :
      (xs ys : List T) (x : T) (word : ℕ) → present hash x (encode_all (xs ++ x ∷ ys) word) ≡ true
  unfolding present encode
  present-encode [] ys x word =
      (==_iff (bit_andn 32 (encode_all ys (encode hash x word)) (hash x)) 0).1 (
        Within-andn 32 (encode_all ys (encode hash x word)) (hash x)
          (keep_all ys x (encode hash x word) (Within-or 32 word (hash x))))
  present-encode (z ∷ xs) ys x word = present-encode xs ys x (encode hash z word)
