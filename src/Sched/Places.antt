-- ===== src/Sched/Places.antt =====
-- Where the tasks of the scheduler stand: each on at most one of the two queues, at most once, and
-- with the locations that say where.
use launch_core.Prelude.{
  ℕ, zero, suc, ◌≤◌, ◌<◌, ◌≡◌, ◌≢◌, ◌⊎◌, inl, inr, ◌∙◌, sym, ap, Bool, false, some, List, [], ◌∷◌,
  ◌++◌, arith, ◌==◌, length, length-set, get_elem?, get_elem?-set, get_elem?-some, set, Bool-cases,
}
use launch_core.Queue.Heap.{Ptr, null}
use launch_core.Queue.Chain.{Cells, has, ne_of_has}
use launch_core.AllocQueue.Order.{insert}
use launch_core.Sched.{TaskState, unallocated, active, sleeping, blocked, is_active, Task}
use launch_core.Sched.Cells.{
  occ, item_at, item_at-has, item_at-without, occ-without, occ-insert, item_at-insert, room_left,
}

-- The location `p` of the task `i` says where it stands on `cs`, once, or that it does not.
abbrev pub Spot : Cells ℕ → ℕ → Ptr → Type 0
Spot cs i p =
    ((p ≡ null) × (occ i cs ≡ 0)) ⊎ ((p ≢ null) × (occ i cs ≡ 1) × (item_at p cs ≡ some i))

-- What a task's state says of its locations and of its TID, while `run` is dispatched.
abbrev pub StateOk : ℕ → ℕ → TaskState → Ptr → Ptr → ℕ → Type 0
StateOk run i unallocated r s tid = (r ≡ null) × (s ≡ null)
StateOk run i active r s tid = (s ≡ null) × ((r ≢ null) ⊎ (i ≡ run)) × (tid ≡ i)
StateOk run i sleeping r s tid = (r ≡ null) × (s ≢ null) × (tid ≡ i)
StateOk run i blocked r s tid = (r ≡ null) × (s ≡ null) × (tid ≡ i)

abbrev pub TaskOk : ℕ → Cells ℕ → Cells ℕ → ℕ → Task → Type 0
TaskOk run rs ss i t =
    Spot rs i t.ready_loc
    × Spot ss i t.sleep_loc
    × StateOk run i t.state t.ready_loc t.sleep_loc t.tid

-- All tasks but `loose` are in place, and that one is on no queue.
pub record IsPlaced (run loose : ℕ) (ts : List Task) (rs ss : Cells ℕ) : Type 0 where
  pub others : (i : ℕ) (t : Task) → i ≢ loose → get_elem? ts i ≡ some t → TaskOk run rs ss i t
  pub off_ready : occ loose rs ≡ 0
  pub off_sleep : occ loose ss ≡ 0
  pub ready_inside : (j : ℕ) → length ts ≤ j → occ j rs ≡ 0
  pub sleep_inside : (j : ℕ) → length ts ≤ j → occ j ss ≡ 0

some_injective : {i j : ℕ} → some i ≡ some j → i ≡ j
some_injective e = cc

pub Spot-cons :
    (cs : Cells ℕ) (p i j q : ℕ) → has p cs ≡ false → i ≢ j → Spot cs i q → Spot ((p, j) ∷ cs) i q
Spot-cons cs p i j q fresh ne (inl (e, o)) = inl (e, ground arith)
Spot-cons cs p i j q fresh ne (inr (e, o, at)) =
    inr (e, ground arith, rw (ne_of_has q p cs (item_at-has q i cs at) fresh).1 at)

different :
    (p q i j : ℕ) (cs : Cells ℕ)
    → i ≢ j
    → item_at q cs ≡ some i
    → item_at p cs ≡ some j
    → (q == p) ≡ false
different p q i j cs ne here at = elim (Bool-cases (q == p)) [
  | inl o ↦
      let same : q ≡ p = ground arith in
      absurd (ne (some_injective (sym here ∙ ap (λ a. item_at a cs) same ∙ at)))
  | inr o ↦ o
]

pub Spot-without :
    (cs : Cells ℕ) (p j : ℕ) (ds : Cells ℕ) (i q : ℕ)
    → i ≢ j
    → Spot (cs ++ ((p, j) ∷ ds)) i q
    → item_at p (cs ++ ((p, j) ∷ ds)) ≡ some j
    → Spot (cs ++ ds) i q
Spot-without cs p j ds i q ne (inl (e, o)) at = inl (e, omega (arith, o, occ-without i p j cs ds))
Spot-without cs p j ds i q ne (inr (e, o, here)) at =
    let other : (q == p) ≡ false = different p q i j (cs ++ ((p, j) ∷ ds)) ne here at in
    inr (
      e,
      ground (arith, o, occ-without i p j cs ds),
      sym (item_at-without q p j cs ds other) ∙ here,
    )

-- Where every index from 0 on is a task in place.
module _ {run loose : ℕ} {ts : List Task} {rs ss : Cells ℕ} (p : IsPlaced run loose ts rs ss) where
  at_most_one : (cs : Cells ℕ) (i q : ℕ) → Spot cs i q → occ i cs ≤ 1
  at_most_one cs i q (inl (_, o)) = omega (arith, o)
  at_most_one cs i q (inr (_, o, _)) = omega (arith, o)

  once_ready : (j : ℕ) → j < length ts → occ j rs ≤ 1
  once_ready j lt = elim (Bool-cases (j == loose)) [
    | inl o ↦
        let same : j ≡ loose = ground arith in omega (arith, ap (λ k. occ k rs) same, p.off_ready)
    | inr o ↦
        let (t, e) = get_elem?-some ts j lt in
        let (r, _, _) = p.others j t (ground arith) e in at_most_one rs j t.ready_loc r
  ]

  once_sleep : (j : ℕ) → j < length ts → occ j ss ≤ 1
  once_sleep j lt = elim (Bool-cases (j == loose)) [
    | inl o ↦
        let same : j ≡ loose = ground arith in omega (arith, ap (λ k. occ k ss) same, p.off_sleep)
    | inr o ↦
        let (t, e) = get_elem?-some ts j lt in
        let (_, q, _) = p.others j t (ground arith) e in at_most_one ss j t.sleep_loc q
  ]

  -- The queues are as large as the table, so there is room for a task that is on neither.
  pub ready_room : loose < length ts → length rs < length ts
  ready_room lt = room_left (length ts) loose rs p.ready_inside once_ready lt p.off_ready

  pub sleep_room : loose < length ts → length ss < length ts
  sleep_room lt = room_left (length ts) loose ss p.sleep_inside once_sleep lt p.off_sleep

  pub get_other :
      (i : ℕ) (t : Task)
      → i ≢ loose
      → loose < length ts
      → get_elem? (set ts loose t) i ≡ get_elem? ts i
  get_other i t ne lt = get_elem?-set ts loose i t lt ∙ ground arith

  -- The table entry of the loose task may change.
  pub IsPlaced-set : (t : Task) → loose < length ts → IsPlaced run loose (set ts loose t) rs ss
  IsPlaced-set t lt = record {
    others = λ i u ne e. p.others i u ne (sym (get_other i t ne lt) ∙ e);
    off_ready = p.off_ready;
    off_sleep = p.off_sleep;
    ready_inside = λ j le. p.ready_inside j (omega (arith, le, length-set ts loose t));
    sleep_inside = λ j le. p.sleep_inside j (omega (arith, le, length-set ts loose t));
  }

pub Spot-insert :
    (sort : ℕ → ℕ → Bool) (cs : Cells ℕ) (p i j q : ℕ)
    → has p cs ≡ false
    → Spot ((p, j) ∷ cs) i q
    → Spot (insert sort p j cs) i q
Spot-insert sort cs p i j q fresh (inl (e, o)) = inl (e, occ-insert sort i p j cs ∙ o)
Spot-insert sort cs p i j q fresh (inr (e, o, at)) =
    inr (e, occ-insert sort i p j cs ∙ o, item_at-insert sort q p j cs fresh ∙ at)

pub Spot-off : (cs : Cells ℕ) (i q : ℕ) → Spot cs i q → q ≡ null → occ i cs ≡ 0
Spot-off cs i q (inl (_, o)) e = o
Spot-off cs i q (inr (ne, _, _)) e = absurd (ne e)

pub Spot-item : (cs : Cells ℕ) (i q : ℕ) → Spot cs i q → q ≢ null → item_at q cs ≡ some i
Spot-item cs i q (inl (e, _)) ne = absurd (ne e)
Spot-item cs i q (inr (_, _, at)) ne = at

pub Spot-removed :
    (cs : Cells ℕ) (p i : ℕ) (ds : Cells ℕ)
    → Spot (cs ++ ((p, i) ∷ ds)) i p
    → p ≢ null
    → occ i (cs ++ ds) ≡ 0
Spot-removed cs p i ds (inl (e, _)) ne = absurd (ne e)
Spot-removed cs p i ds (inr (_, o, _)) ne = let k = occ-without i p i cs ds in ground (arith, k, o)

-- Another task is dispatched: that matters only to one that is active and on no queue.
StateOk-rerun :
    (run run' i : ℕ) (st : TaskState) (r s : Ptr) (tid : ℕ)
    → (i ≢ run) ⊎ (is_active st ≡ false)
    → StateOk run i st r s tid
    → StateOk run' i st r s tid
StateOk-rerun run run' i unallocated r s tid o k = k
StateOk-rerun run run' i active r s tid o (a, inl b, c) = (a, inl b, c)
StateOk-rerun run run' i active r s tid (inl ne) (a, inr b, c) = absurd (ne b)
StateOk-rerun run run' i active r s tid (inr e) (a, inr b, c) = cc
StateOk-rerun run run' i sleeping r s tid o k = k
StateOk-rerun run run' i blocked r s tid o k = k

pub IsPlaced-rerun :
    {run loose : ℕ} (run' : ℕ) {ts : List Task} {rs ss : Cells ℕ}
    → ((i : ℕ) (t : Task)
        → i ≢ loose
        → get_elem? ts i ≡ some t
        → (i ≢ run) ⊎ (is_active t.state ≡ false))
    → IsPlaced run loose ts rs ss
    → IsPlaced run' loose ts rs ss
IsPlaced-rerun {run} run' away p = record {
  others = λ i t ne at.
      let (r, s, k) = p.others i t ne at in
      (r, s, StateOk-rerun run run' i t.state t.ready_loc t.sleep_loc t.tid (away i t ne at) k);
  off_ready = p.off_ready;
  off_sleep = p.off_sleep;
  ready_inside = p.ready_inside;
  sleep_inside = p.sleep_inside;
}

pub injective : {t u : Task} → some t ≡ some u → t ≡ u
injective e = cc

pub in_table : (ts : List Task) (i : ℕ) (t : Task) → get_elem? ts i ≡ some t → i ≢ length ts
in_table [] i t e = cc
in_table (u ∷ ts) zero t e = omega arith
in_table (u ∷ ts) (suc i) t e = let ne = in_table ts i t e in λ k. ne (omega (arith, k))
