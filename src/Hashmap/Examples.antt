-- ===== src/Hashmap/Examples.antt =====
-- The map's theorems on two keys of one bucket, and the tests of the map.
use launch_core.Prelude.{ℕ, ◌≡◌, refl, true, false, none, some, [], ◌∷◌, ◌==◌, ==_iff, arith}
use launch_core.Hashmap.{Key, Hashmap, hashmap, index, find_key, get, add, remove}
use launch_core.Hashmap.Slots.{IsValid}
use launch_core.Hashmap.Laws.{AddSpec, lookup-add}
use launch_core.Hashmap.Removal.{RemoveSpec, remove_lem}

instance Key_ℕ : Key ℕ
Key_ℕ = record { beq = λ a b. a == b; beq_iff = λ a b. ==_iff a b; hash = λ k. k }

abbrev fresh : Hashmap ℕ ℕ
fresh = hashmap 2 2 (
    record { key = 0; val = 0 }
    ∷ record { key = 0; val = 0 }
    ∷ record { key = 0; val = 0 }
    ∷ record { key = 0; val = 0 }
    ∷ [])

-- `4` in slot 0 and `6` in slot 1, both in the first bucket
abbrev two_keys : Hashmap ℕ ℕ
two_keys = record {
  num_buckets = 2;
  bucket_size = 2;
  entries =
      record { key = 4; val = 40 }
      ∷ record { key = 6; val = 60 }
      ∷ record { key = 0; val = 0 }
      ∷ record { key = 0; val = 0 }
      ∷ [];
  used = true ∷ true ∷ false ∷ false ∷ [];
}

-- the same after `4` was removed
abbrev one_key : Hashmap ℕ ℕ
one_key = record two_keys { used = false ∷ true ∷ false ∷ false ∷ [] }

one_key-IsValid : IsValid one_key
one_key-IsValid = record { entries = refl; used = refl; buckets = omega arith }

two_keys-IsValid : IsValid two_keys
two_keys-IsValid = record { entries = refl; used = refl; buckets = omega arith }

remove_example : remove two_keys 4 ≡ (true, one_key)
unfolding remove index find_key Key_ℕ
remove_example = refl

get-two_keys : get two_keys 6 ≡ some 1
unfolding get index find_key Key_ℕ
get-two_keys = refl

get-one_key : get one_key 6 ≡ some 1
unfolding get index find_key Key_ℕ
get-one_key = refl

get-gone : get one_key 4 ≡ none
unfolding get index find_key Key_ℕ
get-gone = refl

lookup-add_example : AddSpec one_key one_key-IsValid 4 41 (add one_key 4)
lookup-add_example = lookup-add one_key one_key-IsValid 4 41 get-gone

remove_lem_example : RemoveSpec two_keys two_keys-IsValid 4 (get two_keys 4) (remove two_keys 4)
remove_lem_example = remove_lem two_keys two_keys-IsValid 4
