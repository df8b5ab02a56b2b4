-- ===== src/TripleBuffer.antt =====
-- triple_buffer/TripleBuffer.h: the control byte that says which of the three buffers is the
-- writer's, which the reader's and which is free. The compare-and-swap makes each call one step, and
-- a call is modelled as the turn of its loop that succeeds. The source says both `m_ctl` and `ctl`;
-- they are one field here. A mask and a shift of the control byte is written as a division.
pub mod Roles
mod Examples
use launch_core.Prelude.{
  ℕ, ◌+◌, ◌*◌, ◌/◌, ◌%◌, Bool, true, false, Option, none, some, if◌then◌else◌, ltb, ◌==◌,
}

-- `ctl & 0b1000000`, then the three fields
abbrev pub new_write : ℕ → ℕ
new_write ctl = ctl / 64 % 2 * 64

abbrev pub dirty_bits : ℕ → ℕ
dirty_bits ctl = ctl / 16 % 4

abbrev pub clean_bits : ℕ → ℕ
clean_bits ctl = ctl / 4 % 4

abbrev pub snap_bits : ℕ → ℕ
snap_bits ctl = ctl % 4

-- `DIRTY_INDEX`, which compares where a shift is meant
abbrev pub dirty_index : ℕ → ℕ
dirty_index ctl = if ltb 4 (dirty_bits ctl * 16) then 1 else 0

abbrev pub snap_index : ℕ → ℕ
snap_index ctl = snap_bits ctl

-- `m_ctl` as the constructor sets it
abbrev pub initial : ℕ
initial = 6

-- The index of the buffer that `read` returns, if there is a new write, and `m_ctl`.
unfoldable pub read : ℕ → Option ℕ × ℕ
read ctl =
    if new_write ctl == 0
    then (none, ctl)
    else let ctl_new = dirty_bits ctl * 16 + snap_bits ctl * 4 + clean_bits ctl in
      (some (snap_index ctl_new), ctl_new)

-- The index of the buffer that `write` returns, and `m_ctl`.
unfoldable pub write : ℕ → ℕ × ℕ
write ctl =
    let ctl_new = 64 + clean_bits ctl * 16 + dirty_bits ctl * 4 + snap_bits ctl in
    (dirty_index ctl_new, ctl_new)
