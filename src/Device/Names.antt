-- ===== src/Device/Names.antt =====
-- Which device a name finds.
use launch_core.Prelude.{
  lt_or_eq, le_test, ◌⊎◌, ℕ, zero, suc, ◌+◌, ◌<◌, ◌≡◌, ◌∙◌, refl, sym, ap, Bool, true, false,
  Option, none, some, List, if◌then◌else◌, ltb, arith, length, length-set, get_elem?, get_elem?-set,
  get_elem?-some, set, inl, inr, success, error,
}
use launch_core.Device.{DeviceMap, Name, same_name, get_loop, get, add}
use launch_core.Device.Init.{IsMap}

abbrev pub or_else : Option ℕ → Option ℕ → Option ℕ
or_else none o = o
or_else (some d) o = some d

abbrev pub only_if : Bool → ℕ → Option ℕ
only_if true dev = some dev
only_if false dev = none

get_set_self :
    {A : Type 0} (xs : List A) (j : ℕ) (v : A) → j < length xs → get_elem? (set xs j v) j ≡ some v
get_set_self xs j v lt = get_elem?-set xs j j v lt ∙ ground arith

get_set_ne :
    {A : Type 0} (xs : List A) (i j : ℕ) (v : A)
    → i < length xs
    → j < i
    → get_elem? (set xs i v) j ≡ get_elem? xs j
get_set_ne xs i j v lt less = get_elem?-set xs i j v lt ∙ ground arith

-- The map with one more entry.
abbrev added : Name → ℕ → DeviceMap → DeviceMap
added name dev m = record m {
  names = set m.names m.count name;
  devices = set m.devices m.count dev;
  count = m.count + 1;
}

-- One turn of the loop of `get`.
turn :
    (k : Name) (n j d : ℕ) (there : Name) (m : DeviceMap)
    → get_elem? m.names j ≡ some there
    → get_elem? m.devices j ≡ some d
    → get_loop k (suc n) j m ≡ (if same_name k there then some d else get_loop k n (suc j) m)
unfolding get_loop
turn k n j d there m e e' = rw (e, e', get_loop) refl

if_or :
    (b : Bool) (d : ℕ) (o p : Option ℕ)
    → (if b then some d else or_else o p) ≡ or_else (if b then some d else o) p
if_or true d o p = refl
if_or false d o p = refl

last_turn : (b : Bool) (d : ℕ) → (if b then some d else none) ≡ or_else none (only_if b d)
last_turn true d = refl
last_turn false d = refl

module _ (m : DeviceMap) (v : IsMap m) (room : m.count < m.size) (name : Name) (dev : ℕ)
    (k : Name) where
  get_loop-added :
      (n j : ℕ)
      → j + n ≡ m.count
      → get_loop k (suc n) j (added name dev m)
        ≡ or_else (get_loop k n j m) (only_if (same_name k name) dev)
  unfolding get_loop
  get_loop-added zero j e =
      let at : j ≡ m.count = omega (arith, e) in
      let in_names : m.count < length m.names = omega (arith, v.names, room) in
      let in_devices : m.count < length m.devices = omega (arith, v.devices, room) in
      turn k 0 j dev name (added name dev m)
        (ap (get_elem? (set m.names m.count name)) at ∙ get_set_self m.names m.count name in_names)
        (ap (get_elem? (set m.devices m.count dev)) at
          ∙ get_set_self m.devices m.count dev in_devices)
      ∙ last_turn (same_name k name) dev
  get_loop-added (suc n) j e =
      let less : j < m.count = omega (arith, e) in
      let in_names : m.count < length m.names = omega (arith, v.names, room) in
      let in_devices : m.count < length m.devices = omega (arith, v.devices, room) in
      let (there, at) = get_elem?-some m.names j (omega (arith, less, in_names)) in
      let (d, at') = get_elem?-some m.devices j (omega (arith, less, in_devices)) in
      let rest = get_loop-added n (suc j) (omega (arith, e)) in
      turn k (suc n) j d there (added name dev m)
        (get_set_ne m.names m.count j name in_names less ∙ at)
        (get_set_ne m.devices m.count j dev in_devices less ∙ at')
      ∙ ap (λ o. if same_name k there then some d else o) rest
      ∙ if_or (same_name k there) d (get_loop k n (suc j) m) (only_if (same_name k name) dev)
      ∙ ap (λ o. or_else o (only_if (same_name k name) dev)) (sym (turn k n j d there m at at'))

not_full : (a b : ℕ) → a < b → ltb a b ≡ true
not_full a b lt = ground arith

-- `add` on a well-formed map: with room it returns success, the map stays well formed, and a lookup
-- then finds what it found before, or, if it found nothing and the name is the same in its first 64
-- characters, the new device; without room it returns an error and changes nothing.
pub get-add :
    {m : DeviceMap} (name : Name) (dev : ℕ)
    → IsMap m
    → ((m.count < m.size)
        × ((add name dev m).0 ≡ success)
        × IsMap (add name dev m).1
        × ((k : Name)
            → get k (add name dev m).1 ≡ or_else (get k m) (only_if (same_name k name) dev)))
      ⊎ ((m.count ≡ m.size) × (add name dev m ≡ (error, m)))
unfolding add get
get-add {m} name dev v = elim (lt_or_eq m.count m.size v.fits) [
  | inr full ↦ inr (full, rw (le_test m.size m.count (omega (arith, full))) refl)
  | inl room ↦
      let open_ = not_full m.count m.size room in
      let one_more : m.count + 1 ≡ suc m.count = omega arith in
      inl (
        room,
        rw open_ refl,
        rw open_ (record {
          names = length-set m.names m.count name ∙ v.names;
          devices = length-set m.devices m.count dev ∙ v.devices;
          fits = omega (arith, room);
        }),
        λ k. rw open_ (
            ap (λ n. get_loop k n 0 (added name dev m)) one_more
            ∙ get_loop-added m v room name dev k m.count 0 (omega arith)),
      )
]
