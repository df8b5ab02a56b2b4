-- ===== src/Ipv4Router/Prefix.antt =====
-- Which route a destination takes.
use native.Mathlib.Nat.{pow-suc, pow-succ', mul-div_cancel, div-div-eq-div-mul}
use launch_core.Prelude.{
  ℕ, zero, suc, ◌+◌, ◌*◌, ◌/◌, ◌%◌, ◌^◌, ◌≤◌, ◌<◌, ◌≡◌, ◌↔◌, ◌⊎◌, refl, sym, ap, ◌∙◌, true, false,
  none, some, List, [], ◌∷◌, ◌++◌, ==_iff, Bool-cases, inl, inr, arith,
}
use launch_core.Ipv4Router.Routes.{Route, bit_and, matches, find_route}

regroup : (b q p : ℕ) → b * 0 + 2 * (q * p) ≡ q * (p * 2)
regroup b q p = grind arith

cancel : (a b p : ℕ) → 0 < p → a * p ≡ b * p → a ≡ b
cancel a b p h e = sym (mul-div_cancel a h) ∙ ap (λ t. t / p) e ∙ mul-div_cancel b h

pow_pos : (k : ℕ) → 0 < 2 ^ k
pow_pos zero = omega arith
pow_pos (suc k) = omega (arith, pow-suc 2 k, pow_pos k)

-- A number and a mask of ones above `k` zeros: the low `k` bits are cut off.
bit_and-mask :
    (n k a s : ℕ) → k ≤ n → a < 2 ^ n → s + 2 ^ k ≡ 2 ^ n → bit_and n a s ≡ a / 2 ^ k * 2 ^ k
unfolding bit_and
bit_and-mask zero zero a s p h e = omega arith
bit_and-mask zero (suc k) a s p h e = absurd (omega arith)
bit_and-mask (suc n) zero a s p h e =
    let double = pow-suc 2 n in
    let rest =
      bit_and-mask n zero (a / 2) (s / 2) (omega arith) (omega (arith, double))
        (omega (arith, double, e)) in
    let odd : s % 2 ≡ 1 = omega (arith, double, e) in rw (odd, rest) (omega arith)
bit_and-mask (suc n) (suc k) a s p h e =
    let double = pow-suc 2 n in
    let double' = pow-suc 2 k in
    let rest =
      bit_and-mask n k (a / 2) (s / 2) (omega arith) (omega (arith, double))
        (omega (arith, double, double', e)) in
    let even : s % 2 ≡ 0 = omega (arith, double', e, double) in
    let same : a / 2 ^ suc k ≡ a / 2 / 2 ^ k =
      ap (λ t. a / t) (pow-succ' 2 k) ∙ sym (div-div-eq-div-mul a 2 (2 ^ k)) in
    rw (even, rest, same, double') (regroup (a % 2) (a / 2 / 2 ^ k) (2 ^ k))

-- A route with a mask of ones above `k` zeros matches the destinations that agree with its address
-- above the low `k` bits.
pub matches-prefix :
    (route : Route) (dst k : ℕ)
    → route.addr < 2 ^ 32
    → dst < 2 ^ 32
    → k ≤ 32
    → route.subnet + 2 ^ k ≡ 2 ^ 32
    → (matches route dst ≡ true) ↔ (route.addr / 2 ^ k ≡ dst / 2 ^ k)
unfolding matches
matches-prefix route dst k ha hd p e =
    let left = bit_and-mask 32 k route.addr route.subnet p ha e in
    let right = bit_and-mask 32 k dst route.subnet p hd e in
    let test = ==_iff (bit_and 32 route.addr route.subnet) (bit_and 32 dst route.subnet) in
    (
      λ b.
          cancel (route.addr / 2 ^ k) (dst / 2 ^ k) (2 ^ k) (pow_pos k)
            (sym left ∙ test.0 b ∙ right),
      λ same. test.1 (left ∙ ap (λ t. t * 2 ^ k) same ∙ sym right),
    )

-- no route of the list matches
abbrev pub AllMiss : List Route → ℕ → Type 0
AllMiss [] dst = dst ≡ dst
AllMiss (route ∷ routes) dst = (matches route dst ≡ false) × AllMiss routes dst

-- `transmit` takes the first route in the table's order that matches, whatever the lengths of the
-- masks: no route before it matches, and where it finds none, no route of the table does.
pub find_route-first :
    (routes : List Route) (dst : ℕ)
    → ((find_route routes dst ≡ none) × AllMiss routes dst)
      ⊎ ((before : List Route) × (route : Route) × (after : List Route) × (routes
            ≡ before ++ route ∷ after)
          × AllMiss before dst
          × (matches route dst ≡ true)
          × (find_route routes dst ≡ some route))
find_route-first [] dst = inl (refl, refl)
find_route-first (r ∷ routes) dst = elim (Bool-cases (matches r dst)) [
  | inl b ↦ inr ([], r, routes, refl, refl, b, rw b refl)
  | inr b ↦ elim (find_route-first routes dst) [
    | inl (e, miss) ↦ inl (rw b e, (b, miss))
    | inr (before, route, after, e, miss, hit, found) ↦
        inr (r ∷ before, route, after, ap (λ t. r ∷ t) e, (b, miss), hit, rw b found)
  ]
]
