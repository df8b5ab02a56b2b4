-- ===== src/TripleBuffer/Roles.antt =====
-- The three roles over any sequence of calls, and the buffers that the calls return.
use launch_core.Prelude.{
  ℕ, ◌+◌, ◌*◌, ◌/◌, ◌%◌, ◌<◌, ◌≡◌, ◌≢◌, refl, sym, ◌∙◌, true, false, Option, none, some,
  if◌then◌else◌, ltb, ◌==◌, Bool-cases, ==_iff, inl, inr, arith,
}
use launch_core.TripleBuffer.{
  new_write, dirty_bits, clean_bits, snap_bits, snap_index, initial, read, write,
}

-- Each of the buffers 0, 1 and 2 has one role.
pub record IsValid (ctl : ℕ) : Type 0 where
  pub width : ctl < 128
  pub dirty : dirty_bits ctl < 3
  pub clean : clean_bits ctl < 3
  pub snap : snap_bits ctl < 3
  pub dirty-clean : dirty_bits ctl ≢ clean_bits ctl
  pub dirty-snap : dirty_bits ctl ≢ snap_bits ctl
  pub clean-snap : clean_bits ctl ≢ snap_bits ctl

-- one call of the writer or of the reader
pub data Step : ℕ → ℕ → Type 0 where
  reads : (ctl : ℕ) → Step ctl (read ctl).1
  writes : (ctl : ℕ) → Step ctl (write ctl).1

pub data Reach : ℕ → Type 0 where
  start : Reach initial
  next : {a b : ℕ} → Reach a → Step a b → Reach b

initial-IsValid : IsValid initial
initial-IsValid = record {
  width = omega arith;
  dirty = omega arith;
  clean = omega arith;
  snap = omega arith;
  dirty-clean = λ e. omega arith;
  dirty-snap = λ e. omega arith;
  clean-snap = λ e. omega arith;
}

module _ (flag d c s : ℕ) (f : flag < 2) (hd : d < 4) (hc : c < 4) (hs : s < 4) where
  at_flag : (flag * 64 + d * 16 + c * 4 + s) / 64 % 2 ≡ flag
  at_flag = omega arith

  at_dirty : (flag * 64 + d * 16 + c * 4 + s) / 16 % 4 ≡ d
  at_dirty = omega arith

  at_clean : (flag * 64 + d * 16 + c * 4 + s) / 4 % 4 ≡ c
  at_clean = omega arith

  at_snap : (flag * 64 + d * 16 + c * 4 + s) % 4 ≡ s
  at_snap = omega arith

by_fields :
    (ctl d c s : ℕ)
    → ctl < 128
    → dirty_bits ctl ≡ d
    → clean_bits ctl ≡ c
    → snap_bits ctl ≡ s
    → (d < 3) × (c < 3) × (s < 3)
    → (d ≢ c) × (d ≢ s) × (c ≢ s)
    → IsValid ctl
by_fields ctl d c s w ed ec es (hd, hc, hs) (dc, ds, cs) = record {
  width = w;
  dirty = omega (arith, ed);
  clean = omega (arith, ec);
  snap = omega (arith, es);
  dirty-clean = λ e. dc (sym ed ∙ e ∙ ec);
  dirty-snap = λ e. ds (sym ed ∙ e ∙ es);
  clean-snap = λ e. cs (sym ec ∙ e ∙ es);
}

abbrev written : ℕ → ℕ
written ctl = 64 + clean_bits ctl * 16 + dirty_bits ctl * 4 + snap_bits ctl

-- The four fields after a `write`.
written_lem :
    (ctl : ℕ)
    → (dirty_bits (written ctl) ≡ clean_bits ctl)
      × (clean_bits (written ctl) ≡ dirty_bits ctl)
      × (snap_bits (written ctl) ≡ snap_bits ctl)
      × (new_write (written ctl) ≡ 64)
      × (written ctl < 128)
written_lem ctl =
    let d : dirty_bits ctl < 4 = omega arith in
    let c : clean_bits ctl < 4 = omega arith in
    let s : snap_bits ctl < 4 = omega arith in
    (omega arith, omega arith, omega arith, omega arith, omega arith)

abbrev swapped : ℕ → ℕ
swapped ctl = dirty_bits ctl * 16 + snap_bits ctl * 4 + clean_bits ctl

-- The four fields after a `read` that finds a new write.
swapped_lem :
    (ctl : ℕ)
    → (dirty_bits (swapped ctl) ≡ dirty_bits ctl)
      × (clean_bits (swapped ctl) ≡ snap_bits ctl)
      × (snap_bits (swapped ctl) ≡ clean_bits ctl)
      × (new_write (swapped ctl) ≡ 0)
      × (swapped ctl < 128)
swapped_lem ctl =
    let d : dirty_bits ctl < 4 = omega arith in
    let c : clean_bits ctl < 4 = omega arith in
    let s : snap_bits ctl < 4 = omega arith in
    (omega arith, omega arith, omega arith, omega arith, omega arith)

write-IsValid : (ctl : ℕ) → IsValid ctl → IsValid (write ctl).1
unfolding write
write-IsValid ctl v =
    let (d, c, s, _, w) = written_lem ctl in
    by_fields (written ctl) (clean_bits ctl) (dirty_bits ctl) (snap_bits ctl) w d c s
      (v.clean, v.dirty, v.snap) (λ e. v.dirty-clean (sym e), v.clean-snap, v.dirty-snap)

read-new :
    (ctl : ℕ)
    → (new_write ctl == 0) ≡ false
    → read ctl ≡ (some (snap_index (swapped ctl)), swapped ctl)
unfolding read
read-new ctl b = rw b refl

read-old : (ctl : ℕ) → (new_write ctl == 0) ≡ true → read ctl ≡ (none, ctl)
unfolding read
read-old ctl b = rw b refl

swapped-IsValid : (ctl : ℕ) → IsValid ctl → IsValid (swapped ctl)
swapped-IsValid ctl v =
    let (d, c, s, _, w) = swapped_lem ctl in
    by_fields (swapped ctl) (dirty_bits ctl) (snap_bits ctl) (clean_bits ctl) w d c s
      (v.dirty, v.snap, v.clean) (v.dirty-snap, v.dirty-clean, λ e. v.clean-snap (sym e))

read-IsValid : (ctl : ℕ) → IsValid ctl → IsValid (read ctl).1
read-IsValid ctl v = elim (Bool-cases (new_write ctl == 0)) [
  | inl b ↦ rw (read-old ctl b) v
  | inr b ↦ rw (read-new ctl b) (swapped-IsValid ctl v)
]

-- After any sequence of calls of the reader and the writer, each of the three buffers has one role.
pub roles-IsValid : (ctl : ℕ) → Reach ctl → IsValid ctl
roles-IsValid _ start = initial-IsValid
roles-IsValid _ (next r (reads ctl)) = read-IsValid ctl (roles-IsValid ctl r)
roles-IsValid _ (next r (writes ctl)) = write-IsValid ctl (roles-IsValid ctl r)

-- What `read` promises of the buffer that it returns.
abbrev pub ReadSpec : ℕ → Option ℕ × ℕ → Type 0
ReadSpec ctl (none, ctl') = (new_write ctl ≡ 0) × (ctl' ≡ ctl)
ReadSpec ctl (some i, ctl') =
    (i ≡ clean_bits ctl)
    × (snap_bits ctl' ≡ i)
    × (clean_bits ctl' ≡ snap_bits ctl)
    × (dirty_bits ctl' ≡ dirty_bits ctl)
    × (i ≢ dirty_bits ctl')
    × (new_write ctl' ≡ 0)

-- `read` returns no buffer, and changes nothing, if there is no new write; otherwise it returns the
-- clean buffer and makes it the snapshot, gives the old snapshot back as the clean one, and leaves
-- the writer's buffer alone, which is another one than it returns.
pub read-swaps : (ctl : ℕ) → IsValid ctl → ReadSpec ctl (read ctl)
read-swaps ctl v = elim (Bool-cases (new_write ctl == 0)) [
  | inl b ↦ rw (read-old ctl b) ((==_iff (new_write ctl) 0).0 b, refl)
  | inr b ↦
      let (d, c, s, n, _) = swapped_lem ctl in
      rw (read-new ctl b) (s, refl, c, d, λ e. v.dirty-clean (sym d ∙ sym e ∙ s), n)
]

index_right : (x n : ℕ) → x ≡ n → n < 2 → (if ltb 4 (x * 16) then 1 else 0) ≡ x
index_right x n e h = ground (arith, e)

index_two : (x : ℕ) → x ≡ 2 → ◌≡◌ {A = ℕ} (if ltb 4 (x * 16) then 1 else 0) 1
index_two x e = ground (arith, e)

-- `write` gives the buffer that was written to the reader as the clean one and takes the clean one.
-- It returns the index of the buffer that it took if that is 0 or 1; but if it took buffer 2, then it
-- returns index 1, which is not the writer's buffer.
pub write-swaps :
    (ctl : ℕ)
    → IsValid ctl
    → (dirty_bits (write ctl).1 ≡ clean_bits ctl)
      × (clean_bits (write ctl).1 ≡ dirty_bits ctl)
      × (snap_bits (write ctl).1 ≡ snap_bits ctl)
      × (new_write (write ctl).1 ≡ 64)
      × (clean_bits ctl < 2 → (write ctl).0 ≡ dirty_bits (write ctl).1)
      × (clean_bits ctl ≡ 2 → ((write ctl).0 ≡ 1) × ((write ctl).0 ≢ dirty_bits (write ctl).1))
unfolding write
write-swaps ctl v =
    let (d, c, s, n, _) = written_lem ctl in
    (
      d,
      c,
      s,
      n,
      λ h. index_right (dirty_bits (written ctl)) (clean_bits ctl) d h,
      λ e.
          let one = index_two (dirty_bits (written ctl)) (d ∙ e) in
          (one, λ same. omega (arith, d, e, one, same)),
    )
