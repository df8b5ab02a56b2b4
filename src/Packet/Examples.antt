-- ===== src/Packet/Examples.antt =====
-- Packets of four payload bytes and three header bytes, and the theorems at them.
use launch_core.Prelude.{◌⊎◌, ℕ, ◌≡◌, refl, true, some, List, [], ◌∷◌, success, error, arith}
use launch_core.Packet.{Packet, packet, push, read, erase, seek_read}
use launch_core.Packet.Invariant.{IsValid, pushed, erased, here, next, Reach-IsValid}
use launch_core.Packet.Stream.{unread, push-unread}
use launch_core.Packet.Headers.{encapsulate, read-encapsulate}
use launch_core.Packet.Spec

abbrev empty : Packet
empty = record {
  buf = 9 ∷ 9 ∷ 9 ∷ 9 ∷ 9 ∷ 9 ∷ 9 ∷ [];
  size = 7;
  header_size = 3;
  wpos = 3;
  rpos = 3;
  hpos = 3;
}

abbrev bytes : List ℕ
bytes = 1 ∷ 2 ∷ 3 ∷ []

abbrev three : Packet
three = record empty { buf = 9 ∷ 9 ∷ 9 ∷ 1 ∷ 2 ∷ 3 ∷ 9 ∷ []; wpos = 6 }

abbrev with_headers : Packet
with_headers = record three { buf = 9 ∷ 7 ∷ 8 ∷ 1 ∷ 2 ∷ 3 ∷ 9 ∷ []; hpos = 1 }

empty-packet : packet empty.buf 4 3 ≡ empty
unfolding packet
empty-packet = refl

push-three : push empty bytes ≡ (success, three)
unfolding push
push-three = refl

push_five : push empty (1 ∷ 2 ∷ 3 ∷ 4 ∷ 5 ∷ []) ≡ (error, empty)
unfolding push
push_five = refl

three-IsValid : IsValid three
three-IsValid = omega arith

Reach-IsValid_example : IsValid (erase (push empty bytes).1 2).1
unfolding push
Reach-IsValid_example =
    Reach-IsValid
      (next (next here (pushed empty bytes (omega arith))) (erased three 2 (omega arith)))
      (omega arith)

push-unread_example :
    let (r, q) = push three (5 ∷ []) in
    ((r, unread q) ≡ Spec.push 1 bytes (5 ∷ []))
    × (((r ≡ success) × (q ≡ record three { buf = q.buf; wpos = 7 })) ⊎ ((r ≡ error) × (q ≡ three)))
push-unread_example = push-unread three-IsValid (omega arith) (5 ∷ []) (omega arith)

encapsulate-three : encapsulate three (7 ∷ 8 ∷ []) ≡ some with_headers
unfolding encapsulate
encapsulate-three = refl

read-encapsulate_example :
    let (r, q, out) = read (seek_read with_headers true) 2 in
    (r ≡ success) × (out ≡ 7 ∷ 8 ∷ []) × (unread q ≡ bytes)
read-encapsulate_example =
    read-encapsulate (7 ∷ 8 ∷ []) three-IsValid (omega arith) encapsulate-three
