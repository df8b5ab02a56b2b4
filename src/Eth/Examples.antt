-- ===== src/Eth/Examples.antt =====
-- The Ethernet layer on a small frame, with the first two entries of the table.
use launch_core.Prelude.{
  ◌-◌, arith, ℕ, ◌+◌, ◌≡◌, ◌⊎◌, refl, true, false, List, [], ◌∷◌, slice, Ret, success, error,
}
use launch_core.Packet.{Packet}
use launch_core.Packet.Invariant.{IsValid}
use launch_core.Eth.{Layer, Info, header_size, matches, receive}
use launch_core.Eth.Frame.{Accepted}
use launch_core.Eth.Checks.{receive-matches}

abbrev table : List ℕ
table = 0 ∷ 1996959894 ∷ []

abbrev layer : Layer
layer = record { mac = 2 ∷ 0 ∷ 0 ∷ 0 ∷ 0 ∷ 7 ∷ []; proto = 8; fcs = false }

-- a broadcast with four bytes for the check sequence
abbrev frame : Packet
frame = record {
  buf = 255 ∷ 255 ∷ 255 ∷ 255 ∷ 255 ∷ 255 ∷ 2 ∷ 0 ∷ 0 ∷ 0 ∷ 0 ∷ 9 ∷ 8 ∷ 0 ∷ 0 ∷ 0 ∷ 0 ∷ 0 ∷ [];
  size = 18;
  header_size = 0;
  wpos = 18;
  rpos = 0;
  hpos = 0;
}

abbrev unknown : Info
unknown = record { src_mac = []; dst_mac = [] }

abbrev take_all : Packet → Info → Ret × Packet × Info
take_all p info = (success, p, info)

group_address : matches layer (255 ∷ 255 ∷ 255 ∷ 255 ∷ 255 ∷ 255 ∷ []) ≡ true
group_address = refl

other_address : matches layer (2 ∷ 0 ∷ 0 ∷ 0 ∷ 0 ∷ 8 ∷ []) ≡ false
other_address = refl

frame-IsValid : IsValid frame
frame-IsValid = record {
  storage = refl;
  small = omega arith;
  header = omega arith;
  written = omega arith;
  fits = omega arith;
  reading = omega arith;
}

receive-matches_example :
    ((¬ Accepted table layer frame) × ((receive take_all table layer frame unknown).0 ≡ error))
    ⊎ (Accepted table layer frame
        × (receive take_all table layer frame unknown
            ≡ take_all
                (record frame { rpos = frame.rpos + header_size; wpos = frame.wpos - 4 })
                (record unknown { src_mac = slice frame.buf (frame.rpos + 6) 6 })))
receive-matches_example =
    receive-matches take_all table layer frame unknown frame-IsValid (omega arith) refl refl
