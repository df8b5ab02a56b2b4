-- ===== src/Sched/Cells.antt =====
-- What the cells of a task queue hold: which task stands at an address, and how often a task does.
use launch_core.Prelude.{
  ℕ, zero, suc, ◌+◌, ◌≤◌, ◌<◌, ◌≡◌, inl, inr, ◌∙◌, refl, sym, ap, ltb, Bool, true, false, Option,
  none, some, [], ◌∷◌, ◌++◌, arith, ◌==◌, if◌then◌else◌, length, Bool-cases,
}
use launch_core.Queue.Heap.{Ptr}
use launch_core.Queue.Chain.{Cells, has}
use launch_core.AllocQueue.Order.{insert}

abbrev pub occ : ℕ → Cells ℕ → ℕ
occ i [] = 0
occ i ((_, j) ∷ cs) = (if i == j then 1 else 0) + occ i cs

abbrev pub item_at : Ptr → Cells ℕ → Option ℕ
item_at p [] = none
item_at p ((q, j) ∷ cs) = if p == q then some j else item_at p cs

pub occ-append : (i : ℕ) (cs ds : Cells ℕ) → occ i (cs ++ ds) ≡ occ i cs + occ i ds
occ-append i [] ds = omega arith
occ-append i ((p, j) ∷ cs) ds = omega (arith, occ-append i cs ds)

pub item_at-has : (p : Ptr) (i : ℕ) (cs : Cells ℕ) → item_at p cs ≡ some i → has p cs ≡ true
item_at-has p i [] e = cc
item_at-has p i ((q, j) ∷ cs) e = ground (arith, item_at-has p i cs)

-- The cell of an address, with what stands before and behind it.
pub item_at-split :
    (p : Ptr) (i : ℕ) (cs : Cells ℕ)
    → item_at p cs ≡ some i
    → (fs : Cells ℕ) × (bs : Cells ℕ) × (cs ≡ fs ++ ((p, i) ∷ bs))
item_at-split p i [] e = cc
item_at-split p i ((q, j) ∷ cs) e = elim (Bool-cases (p == q)) [
  | inl o ↦ ([], cs, ground arith)
  | inr o ↦
      let (fs, bs, k) = item_at-split p i cs (rw o at e) in
      ((q, j) ∷ fs, bs, ap (λ l. (q, j) ∷ l) k)
]

pub item_at-last :
    (p : Ptr) (i : ℕ) (cs ds : Cells ℕ)
    → has p cs ≡ false
    → item_at p (cs ++ ((p, i) ∷ ds)) ≡ some i
item_at-last p i [] ds o = ground arith
item_at-last p i ((q, j) ∷ cs) ds o = ground (arith, item_at-last p i cs ds)

-- A cell is taken out: the others stay where they are.
pub item_at-without :
    (p a : Ptr) (i : ℕ) (cs ds : Cells ℕ)
    → (p == a) ≡ false
    → item_at p (cs ++ ((a, i) ∷ ds)) ≡ item_at p (cs ++ ds)
item_at-without p a i [] ds o = rw o
item_at-without p a i ((q, j) ∷ cs) ds o = ground (arith, item_at-without p a i cs ds)

pub occ-without :
    (j a : Ptr) (i : ℕ) (cs ds : Cells ℕ)
    → occ j (cs ++ ((a, i) ∷ ds)) ≡ (if j == i then 1 else 0) + occ j (cs ++ ds)
occ-without j a i [] ds = refl
occ-without j a i ((q, k) ∷ cs) ds = omega (arith, occ-without j a i cs ds)

module _ (sort : ℕ → ℕ → Bool) where
  pub occ-insert : (j p i : ℕ) (cs : Cells ℕ) → occ j (insert sort p i cs) ≡ occ j ((p, i) ∷ cs)
  unfolding insert
  occ-insert j p i [] = refl
  occ-insert j p i ((q, k) ∷ cs) = ground (arith, occ-insert j p i cs)

  pub item_at-insert :
      (a p i : ℕ) (cs : Cells ℕ)
      → has p cs ≡ false
      → item_at a (insert sort p i cs) ≡ item_at a ((p, i) ∷ cs)
  unfolding insert
  item_at-insert a p i [] o = refl
  item_at-insert a p i ((q, k) ∷ cs) o = ground (arith, item_at-insert a p i cs)

-- Distinct tasks below `n`: there are at most `n` of them, and fewer if one is missing.
total : ℕ → Cells ℕ → ℕ
total zero cs = 0
total (suc n) cs = occ n cs + total n cs

total-nil : (n : ℕ) → total n [] ≡ 0
unfolding total
total-nil zero = refl
total-nil (suc n) = omega (arith, total-nil n)

total-cons :
    (n p i : ℕ) (cs : Cells ℕ) → total n ((p, i) ∷ cs) ≡ (if ltb i n then 1 else 0) + total n cs
unfolding total
total-cons zero p i cs = ground arith
total-cons (suc n) p i cs = ground (arith, total-cons n p i cs)

length-total : (n : ℕ) (cs : Cells ℕ) → ((j : ℕ) → n ≤ j → occ j cs ≡ 0) → length cs ≡ total n cs
length-total n [] b = omega (arith, total-nil n)
length-total n ((p, i) ∷ cs) b =
    let rest = length-total n cs (λ j le. omega (arith, b j le)) in
    elim (Bool-cases (ltb i n)) [
      | inl o ↦ rw (total-cons, o) (omega (arith, rest))
      | inr o ↦ absurd (ground (arith, b i))
    ]

total-le : (n : ℕ) (cs : Cells ℕ) → ((j : ℕ) → j < n → occ j cs ≤ 1) → total n cs ≤ n
unfolding total
total-le zero cs b = omega arith
total-le (suc n) cs b = omega (arith, b n (omega arith), total-le n cs (λ j lt. b j (omega arith)))

total-lt :
    (n i : ℕ) (cs : Cells ℕ)
    → ((j : ℕ) → j < n → occ j cs ≤ 1)
    → i < n
    → occ i cs ≡ 0
    → total n cs < n
unfolding total
total-lt zero i cs b lt e = absurd (omega arith)
total-lt (suc n) i cs b lt e = elim (Bool-cases (i == n)) [
  | inl o ↦
      let same : i ≡ n = ground arith in
      let here : occ n cs ≡ 0 = ap (λ k. occ k cs) (sym same) ∙ e in
      omega (arith, here, total-le n cs (λ j l. b j (omega arith)))
  | inr o ↦
      omega (arith, b n (omega arith), total-lt n i cs (λ j l. b j (omega arith)) (ground arith) e)
]

-- There is room for a task that is not on the queue.
pub room_left :
    (n i : ℕ) (cs : Cells ℕ)
    → ((j : ℕ) → n ≤ j → occ j cs ≡ 0)
    → ((j : ℕ) → j < n → occ j cs ≤ 1)
    → i < n
    → occ i cs ≡ 0
    → length cs < n
room_left n i cs out once lt e = omega (arith, length-total n cs out, total-lt n i cs once lt e)
