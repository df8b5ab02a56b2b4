-- ===== src/Kiss/Examples.antt =====
-- A KISS frame in a buffer of seven bytes, and two bytes of data, one of which is escaped.
use launch_core.Prelude.{
  ℕ, ◌-◌, ◌≡◌, refl, some, List, [], ◌∷◌, ◌++◌, length, slice, success, arith,
}
use launch_core.Packet.{Packet, packet, push, erase, write_ptr, capacity, allocate_header, store}
use launch_core.Packet.Stream.{unread}
use launch_core.Kiss.{frame_end, kiss_frame, push_data, set_port, set_command, set_port_and_command}
use launch_core.Kiss.Escapes.{HasRoom, escape_all, push_data-unread}

abbrev memory : List ℕ
memory = 9 ∷ 9 ∷ 9 ∷ 9 ∷ 9 ∷ 9 ∷ 9 ∷ []

abbrev data_bytes : List ℕ
data_bytes = 1 ∷ 192 ∷ []

-- a frame without data
abbrev frame : Packet
frame = record {
  buf = 192 ∷ 0 ∷ 192 ∷ 9 ∷ 9 ∷ 9 ∷ 9 ∷ [];
  size = 9;
  header_size = 2;
  wpos = 3;
  rpos = 2;
  hpos = 0;
}

made : kiss_frame memory ≡ frame
unfolding packet push allocate_header store
made = refl

frame-HasRoom : HasRoom frame (length (escape_all data_bytes))
frame-HasRoom = record {
  storage = refl;
  headers = refl;
  small = omega arith;
  written = omega arith;
  reading = omega arith;
  room = omega arith;
}

push_data-unread_example :
    (q : Packet) × (push_data 0 data_bytes frame ≡ some (success, q))
    × HasRoom q 0
    × (unread q
        ≡ slice frame.buf frame.rpos (frame.wpos - 1 - frame.rpos)
          ++ (escape_all data_bytes ++ frame_end ∷ []))
push_data-unread_example =
    push_data-unread frame 0 data_bytes frame-HasRoom refl (omega arith) (omega arith) refl

-- The end of a frame is erased before new bytes are pushed.
once :
    push_data 0 data_bytes frame
    ≡ some (success, record frame { buf = 192 ∷ 0 ∷ 1 ∷ 219 ∷ 192 ∷ 192 ∷ 9 ∷ []; wpos = 6 })
unfolding push capacity erase write_ptr
once = refl

-- The check of the room is against the size, which is two more than the buffer holds: the end of
-- this frame is counted and stands in no byte of the buffer.
over :
    push_data 0 (1 ∷ 2 ∷ 3 ∷ 4 ∷ 5 ∷ []) frame
    ≡ some (success, record frame { buf = 192 ∷ 0 ∷ 1 ∷ 2 ∷ 3 ∷ 4 ∷ 5 ∷ []; wpos = 8 })
unfolding push capacity erase write_ptr
over = refl

port_two : (set_port_and_command frame 0 2 1).buf ≡ 192 ∷ 33 ∷ 192 ∷ 9 ∷ 9 ∷ 9 ∷ 9 ∷ []
unfolding set_port_and_command
port_two = refl

port_added : (set_port (set_command frame 0 1) 0 2).buf ≡ 192 ∷ 33 ∷ 192 ∷ 9 ∷ 9 ∷ 9 ∷ 9 ∷ []
unfolding set_port set_command
port_added = refl
