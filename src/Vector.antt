-- ===== src/Vector.antt =====
-- vector/vector.h: a vector of fixed capacity. `insert` makes room at an index and returns a pointer
-- to the element there, where the caller writes.
pub mod Shifts
pub mod Contents
mod Examples
use launch_core.Prelude.{
  ℕ, zero, suc, ◌+◌, ◌-◌, Bool, ◌||◌, Option, none, some, List, if◌then◌else◌, ltb, leb, ◌==◌,
  get_or, set, Ret, success, error, add_size, sub_size,
}

-- class Vector
pub record Vector (A : Type 0) : Type 0 where
  pub capacity : ℕ
  pub len : ℕ
  pub elements : List A

-- The constructor is given the array and its size.
abbrev pub vector : {A : Type 0} → List A → ℕ → Vector A
vector objs size = record { capacity = size; len = 0; elements = objs }

module _ {A : Type 0} where
  abbrev pub full : Vector A → Bool
  full v = v.len == v.capacity

  abbrev pub size : Vector A → ℕ
  size v = v.len

  -- `operator[]`: the index where the pointer leads to
  abbrev pub at : Vector A → ℕ → Option ℕ
  at v index = if ltb index v.len then some index else none

  -- what the caller does with a pointer into the vector
  abbrev pub write : Vector A → ℕ → A → Vector A
  write v index x = record v { elements = set v.elements index x }

  -- The loop of `lshift`, with `n` more turns.
  pub lshift_loop : A → ℕ → ℕ → List A → List A
  lshift_loop junk zero i es = es
  lshift_loop junk (suc n) i es = lshift_loop junk n (suc i) (set es i (get_or es (suc i) junk))

  -- The loop of `rshift`, with `n` more turns: each element is swapped with `last`.
  pub rshift_loop : A → ℕ → ℕ → A → List A → List A
  rshift_loop junk zero i last es = es
  rshift_loop junk (suc n) i last es = rshift_loop junk n (suc i) (get_or es i junk) (set es i last)

-- `junk` is what a read outside of the array gives.
module _ {A : Type 0} (junk : A) where
  pub lshift : Vector A → ℕ → Vector A
  unfolding lshift_loop
  lshift v index =
      let len = sub_size v.len 1 in
      record v { len = len; elements = lshift_loop junk (len - index) index v.elements }

  pub rshift : Vector A → ℕ → Vector A
  unfolding rshift_loop
  rshift v index =
      let len = add_size v.len 1 in
      let last = get_or v.elements index junk in
      record v {
        len = len;
        elements = rshift_loop junk (len - (suc index)) (suc index) last v.elements;
      }

  pub insert : Vector A → ℕ → Option ℕ × Vector A
  unfolding rshift
  insert v index =
      if ltb v.len index || (v.len == v.capacity) then (none, v) else (some index, rshift v index)

  pub remove : Vector A → ℕ → Ret × Vector A
  unfolding lshift
  remove v index = if leb v.len index then (error, v) else (success, lshift v index)

  pub push_back : Vector A → Option ℕ × Vector A
  unfolding insert
  push_back v = insert v v.len

  pub pop_back : Vector A → Ret × Vector A
  unfolding remove
  pop_back v = remove v (sub_size v.len 1)

  pub push_front : Vector A → Option ℕ × Vector A
  unfolding insert
  push_front v = insert v 0

  pub pop_front : Vector A → Ret × Vector A
  unfolding remove
  pop_front v = remove v 0
