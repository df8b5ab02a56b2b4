-- ===== src/Net/Ipv4/Subnet.antt =====
-- The subnet masks that `valid_subnet` accepts, and their lengths.
use native.Mathlib.Nat.{div-div-eq-div-mul, pow-suc}
use launch_core.Prelude.{
  ℕ, zero, suc, ◌+◌, ◌-◌, ◌/◌, ◌%◌, ◌^◌, ◌≤◌, ◌<◌, ◌≡◌, ◌≢◌, ◌↔◌, inl, inr, Bool-cases, refl, sym,
  ap, ◌∙◌, Bool, true, false, not, if◌then◌else◌, ◌==◌, arith,
}
use launch_core.Net.Ipv4.{bit, valid_subnet_loop, valid_subnet, subnet_len_loop, subnet_len}

-- The loops on the number whose bits are still to come.
valid_bits : ℕ → Bool → ℕ → Bool
valid_bits q ones zero = true
valid_bits q true (suc n) =
    let rest = valid_bits (q / 2) true n in if not (not (q % 2 == 0)) then false else rest
valid_bits q false (suc n) = valid_bits (q / 2) (not (q % 2 == 0)) n

low_zeros : ℕ → ℕ → ℕ
low_zeros q zero = 0
low_zeros q (suc n) = let rest = low_zeros (q / 2) n in if not (q % 2 == 0) then suc n else rest

next_bit : (s i : ℕ) → s / 2 ^ suc i ≡ s / 2 ^ i / 2
next_bit s i = ap (λ t. s / t) (pow-suc 2 i) ∙ sym (div-div-eq-div-mul s (2 ^ i) 2)

valid_subnet_loop-valid_bits :
    (s i n : ℕ) (ones : Bool) → valid_subnet_loop s i ones n ≡ valid_bits (s / 2 ^ i) ones n
unfolding valid_subnet_loop valid_bits
valid_subnet_loop-valid_bits s i zero ones = refl
valid_subnet_loop-valid_bits s i (suc n) true =
    rw (valid_subnet_loop-valid_bits s (suc i) n true, next_bit s i) refl
valid_subnet_loop-valid_bits s i (suc n) false =
    rw (valid_subnet_loop-valid_bits s (suc i) n (bit s i), next_bit s i) refl

false-true : false ≢ true
false-true e = cc

-- all ones
valid_bits-true : (n q : ℕ) → q < 2 ^ n → (valid_bits q true n ≡ true) ↔ (q + 1 ≡ 2 ^ n)
unfolding valid_bits
valid_bits-true zero q h = (λ e. omega arith, λ e. refl)
valid_bits-true (suc n) q h =
    let double = pow-suc 2 n in
    let (there, back) = valid_bits-true n (q / 2) (omega (arith, double)) in
    elim (Bool-cases (q % 2 == 0)) [
      | inl b ↦ rw b (λ e. absurd (false-true e), λ e. absurd (ground (arith, b, double, e)))
      | inr b ↦
          let odd : q % 2 ≡ 1 = ground (arith, b) in
          rw b (λ e. omega (arith, there e, double, odd), λ e. back (omega (arith, e, double, odd)))
    ]

-- Ones down to bit `k`, and zeros below it.
valid_bits-mask :
    (n q : ℕ) → q < 2 ^ n → valid_bits q false n ≡ true → (k : ℕ) × (k ≤ n) × (q + 2 ^ k ≡ 2 ^ n)
unfolding valid_bits
valid_bits-mask zero q h e = (0, omega arith, omega arith)
valid_bits-mask (suc n) q h e =
    let double = pow-suc 2 n in
    let below : q / 2 < 2 ^ n = omega (arith, double) in
    elim (Bool-cases (q % 2 == 0)) [
      | inl b ↦
          let even : q % 2 ≡ 0 = ground (arith, b) in
          let (k, p, sum) =
            valid_bits-mask n (q / 2) below (ap (λ t. valid_bits (q / 2) (not t) n) (sym b) ∙ e) in
          (suc k, omega arith, omega (arith, sum, double, even, pow-suc 2 k))
      | inr b ↦
          let odd : q % 2 ≡ 1 = ground (arith, b) in
          let ones =
            (valid_bits-true n (q / 2) below).0
              (ap (λ t. valid_bits (q / 2) (not t) n) (sym b) ∙ e) in
          (0, omega arith, omega (arith, ones, double, odd))
    ]

mask-valid_bits :
    (n q k : ℕ)
    → k ≤ n
    → q + 2 ^ k ≡ 2 ^ n
    → (valid_bits q false n ≡ true) × (low_zeros q n ≡ n - k)
unfolding valid_bits low_zeros
mask-valid_bits zero q k p sum = (refl, omega arith)
mask-valid_bits (suc n) q zero p sum =
    let double = pow-suc 2 n in
    let odd : (q % 2 == 0) ≡ false = ground (arith, double, sum) in
    rw odd (
      (valid_bits-true n (q / 2) (omega (arith, double, sum))).1 (omega (arith, double, sum)),
      omega arith,
    )
mask-valid_bits (suc n) q (suc k) p sum =
    let double = pow-suc 2 n in
    let double' = pow-suc 2 k in
    let even : (q % 2 == 0) ≡ true = ground (arith, double, double', sum) in
    let (valid, count) =
      mask-valid_bits n (q / 2) k (omega arith) (omega (arith, double, double', sum)) in
    rw even (valid, omega (arith, count))

subnet_len_loop-low_zeros :
    (s i n : ℕ) → i + n ≡ 32 → subnet_len_loop s i n ≡ low_zeros (s / 2 ^ i) n
unfolding subnet_len_loop low_zeros
subnet_len_loop-low_zeros s i zero h = refl
subnet_len_loop-low_zeros s i (suc n) h =
    let left : 32 - i ≡ suc n = omega (arith, h) in
    rw (subnet_len_loop-low_zeros s (suc i) n (omega (arith, h)), next_bit s i, left) refl

from_zero : (s : ℕ) → s / 2 ^ 0 ≡ s
from_zero s = omega arith

-- `valid_subnet` accepts exactly the masks of ones followed by `k` zeros, for `k` up to 32, and
-- `subnet_len` gives 32 - k for them.
pub valid_subnet-mask :
    (s : ℕ)
    → s < 2 ^ 32
    → ((valid_subnet s ≡ true) ↔ ((k : ℕ) × (k ≤ 32) × (s + 2 ^ k ≡ 2 ^ 32)))
      × ((k : ℕ) → k ≤ 32 → s + 2 ^ k ≡ 2 ^ 32 → subnet_len s ≡ 32 - k)
unfolding valid_subnet subnet_len
valid_subnet-mask s h =
    let loop =
      valid_subnet_loop-valid_bits s 0 32 false ∙ ap (λ t. valid_bits t false 32) (from_zero s) in
    let len =
      subnet_len_loop-low_zeros s 0 32 (omega arith) ∙ ap (λ t. low_zeros t 32) (from_zero s) in
    (
      (
        λ e. valid_bits-mask 32 s h (sym loop ∙ e),
        λ (k, p, sum). loop ∙ (mask-valid_bits 32 s k p sum).0,
      ),
      λ k p sum. len ∙ (mask-valid_bits 32 s k p sum).1,
    )
