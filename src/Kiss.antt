-- ===== src/Kiss.antt =====
-- net/kiss/kiss.h: a packet that holds a KISS frame. `none` as a whole result is a fault, where the
-- source follows a NULL pointer.
pub mod Escapes
mod Examples
use launch_core.Prelude.{
  ℕ, zero, suc, ◌+◌, ◌-◌, ◌*◌, ◌/◌, ◌%◌, ◌^◌, Bool, true, false, ◌&&◌, Option, none, some, List, [],
  ◌∷◌, if◌then◌else◌, ltb, ◌==◌, get_or, length, set, Ret, success, error,
}
use launch_core.Packet.{Packet, packet, push, erase, write_ptr, allocate_header, capacity, store}

abbrev pub frame_end : ℕ
frame_end = 192

abbrev pub frame_esc : ℕ
frame_esc = 219

abbrev pub trans_frame_end : ℕ
trans_frame_end = 220

abbrev pub trans_frame_esc : ℕ
trans_frame_esc = 221

-- The calls that go on after a success and end with any other result.
abbrev pub and_then : Ret × Packet → (Packet → Ret × Packet) → Ret × Packet
and_then (success, p) f = f p
and_then (_, p) f = (error, p)

-- The bytes of KISS_HEADER_T.
abbrev pub header_size : ℕ
header_size = 2

-- KISSFrame's constructor, with what `m_internal_buff` held: its PACKET_SIZE bytes are the size that
-- the packet is given, which adds the headers to it.
abbrev pub kiss_frame : List ℕ → Packet
kiss_frame internal_buff =
    let (slot, p) =
      allocate_header (packet internal_buff (length internal_buff) header_size) header_size in
    let at : ℕ = elim slot [ none ↦ 0 | some i ↦ i ] in
    (push (store p at (frame_end ∷ 0 ∷ [])) (frame_end ∷ [])).1

-- `erase_frame_end`, which looks at the byte before the write pointer.
abbrev pub erase_frame_end : Packet → Option (Ret × Packet)
erase_frame_end p = elim (write_ptr p 1) [
  | none ↦ none
  | some at ↦ some (if get_or p.buf (at - 1) 0 == frame_end then erase p 1 else (success, p))
]

-- The loop of `push_data`; `before` is the byte that stands before the first one in memory.
abbrev pub push_loop : ℕ → List ℕ → Packet → Ret × Packet
push_loop before [] p = (success, p)
push_loop before (byte ∷ bytes) p =
    let rest : Packet → Ret × Packet =
      λ q. and_then (push q (byte ∷ [])) (λ q'. push_loop byte bytes q') in
    if byte == frame_end
    then and_then (push p (frame_esc ∷ [])) rest
    else if byte == trans_frame_end
    then and_then (push p (trans_frame_esc ∷ [])) rest
    else if (byte == trans_frame_esc) && (before == trans_frame_esc)
    then (error, p)
    else rest p

-- `push_data` after the old end of the frame was erased.
abbrev pub push_escaped : ℕ → List ℕ → Packet → Ret × Packet
push_escaped before bytes p =
    if ltb (capacity p) (length bytes)
    then (error, p)
    else and_then (push_loop before bytes p) (λ q. push q (frame_end ∷ []))

abbrev pub push_data : ℕ → List ℕ → Packet → Option (Ret × Packet)
push_data before bytes p = elim (erase_frame_end p) [
  | none ↦ none
  | some result ↦ some (and_then result (λ q. push_escaped before bytes q))
]

-- `a | b` on the low `n` bits
pub bit_or : ℕ → ℕ → ℕ → ℕ
bit_or zero a b = 0
bit_or (suc n) a b = (if (a % 2 == 0) && (b % 2 == 0) then 0 else 1) + 2 * bit_or n (a / 2) (b / 2)

-- The three setters of the header's second byte, which stands behind `at`.
unfoldable pub set_port : Packet → ℕ → ℕ → Packet
unfolding bit_or
set_port p at port = record p {
  buf = set p.buf (at + 1) (bit_or 8 (get_or p.buf (at + 1) 0) (port * 2 ^ 4));
}

unfoldable pub set_command : Packet → ℕ → ℕ → Packet
unfolding bit_or
set_command p at command = record p {
  buf = set p.buf (at + 1) (bit_or 8 (get_or p.buf (at + 1) 0) command);
}

unfoldable pub set_port_and_command : Packet → ℕ → ℕ → ℕ → Packet
unfolding bit_or
set_port_and_command p at port command = record p {
  buf = set p.buf (at + 1) (bit_or 8 (port * 2 ^ 4) command);
}
