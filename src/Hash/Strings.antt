-- ===== src/Hash/Strings.antt =====
-- For which strings the hash ends.
use launch_core.Prelude.{
  ℕ, zero, suc, ◌+◌, ◌*◌, ◌%◌, ◌^◌, ◌<◌, ◌≤◌, ◌≡◌, refl, none, some, List, [], ◌∷◌, arith, length,
  get_elem?, get_elem?-some,
}
use launch_core.Hash.{string_loop, string_hash, bit_xor}

string_loop-endless :
    (fuel : ℕ) (obj : List ℕ) (hash i ii : ℕ)
    → 4 ≤ length obj
    → i < 4
    → string_loop fuel obj hash i ii ≡ none
unfolding string_loop
string_loop-endless zero obj hash i ii long lt = refl
string_loop-endless (suc fuel) obj hash i ii long lt =
    let (c, at) = get_elem?-some obj i (omega (arith, long, lt)) in
    rw (at, string_loop)
      (string_loop-endless fuel obj (bit_xor 32 hash (c * 2 ^ (ii * 8) % 2 ^ 32)) ((i + 1) % 4)
        (ii + 1) long (omega arith))

get_none : (xs : List ℕ) (i : ℕ) → length xs ≤ i → get_elem? xs i ≡ none
get_none [] i le = refl
get_none (x ∷ xs) zero le = absurd (omega (arith, le))
get_none (x ∷ xs) (suc i) le = get_none xs i (omega (arith, le))

-- A hash of `n` more characters.
string_loop-ends :
    (n fuel : ℕ) (obj : List ℕ) (hash i ii : ℕ)
    → length obj < 4
    → i + n ≡ length obj
    → n < fuel
    → (h : ℕ) × (string_loop fuel obj hash i ii ≡ some h)
unfolding string_loop
string_loop-ends n zero obj hash i ii short sum lt = absurd (omega (arith, lt))
string_loop-ends zero (suc fuel) obj hash i ii short sum lt =
    (hash, rw (get_none obj i (omega (arith, sum)), string_loop) refl)
string_loop-ends (suc n) (suc fuel) obj hash i ii short sum lt =
    let (c, at) = get_elem?-some obj i (omega (arith, sum)) in
    let next : (i + 1) % 4 ≡ i + 1 = omega (arith, sum, short) in
    let (h, run) =
      string_loop-ends n fuel obj (bit_xor 32 hash (c * 2 ^ (ii * 8) % 2 ^ 32)) ((i + 1) % 4)
        (ii + 1) short (omega (arith, next, sum)) (omega (arith, lt)) in
    (h, rw (at, string_loop) run)

-- The hash of a string of fewer than four characters ends, within one round more than it has
-- characters. That of a longer string never does: its index wraps round before it gets to the NUL.
pub string_hash-ends :
    (obj : List ℕ)
    → (length obj < 4 → (h : ℕ) × (string_hash (suc (length obj)) obj ≡ some h))
      × (4 ≤ length obj → (fuel : ℕ) → string_hash fuel obj ≡ none)
unfolding string_hash
string_hash-ends obj = (
  λ short.
      string_loop-ends (length obj) (suc (length obj)) obj 0 0 0 short (omega arith) (omega arith),
  λ long fuel. string_loop-endless fuel obj 0 0 0 long (omega arith),
)
