-- ===== src/Hash/Examples.antt =====
-- Strings of three and of four characters, and a filter of numbers.
use launch_core.Prelude.{
  ℕ, ◌+◌, suc, ◌<◌, ◌≤◌, ◌≡◌, refl, true, false, none, some, List, [], ◌∷◌, ◌++◌, length,
}
use launch_core.Hash.{string_hash, encode, present}
use launch_core.Hash.Strings.{string_hash-ends}
use launch_core.Hash.Filter.{encode_all, present-encode}

abbrev long : List ℕ
long = 103 ∷ 112 ∷ 115 ∷ 48 ∷ []

abc : string_hash 4 (97 ∷ 98 ∷ 99 ∷ []) ≡ some (97 + 25088 + 6488064)
unfolding string_hash launch_core.Hash.string_loop launch_core.Hash.bit_xor
abc = refl

string_hash-ends_example :
    (length long < 4 → (h : ℕ) × (string_hash (suc (length long)) long ≡ some h))
    × (4 ≤ length long → (fuel : ℕ) → string_hash fuel long ≡ none)
string_hash-ends_example = string_hash-ends long

absent : present (λ n. n) 4 (encode (λ n. n) 3 0) ≡ false
unfolding present encode launch_core.Hash.bit_or launch_core.Hash.bit_andn
absent = refl

present-encode_example :
    present (λ n. n) 5 (encode_all (λ n. n) ((3 ∷ []) ++ 5 ∷ (9 ∷ [])) 0) ≡ true
present-encode_example = present-encode (λ n. n) (3 ∷ []) (9 ∷ []) 5 0
