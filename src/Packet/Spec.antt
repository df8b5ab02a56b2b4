-- ===== src/Packet/Spec.antt =====
-- What the payload of a packet is for: a stream of bytes with bounded room.
use launch_core.Prelude.{
  ℕ, ◌-◌, List, [], ◌++◌, Ret, success, error, ltb, if◌then◌else◌, length, take, drop,
}

-- A stream with room for `room` more bytes.
unfoldable pub push : ℕ → List ℕ → List ℕ → Ret × List ℕ
push room s src = if ltb room (length src) then (error, s) else (success, s ++ src)

unfoldable pub read : List ℕ → ℕ → Ret × List ℕ × List ℕ
read s n = if ltb (length s) n then (error, s, []) else (success, drop n s, take n s)

unfoldable pub truncate : List ℕ → ℕ → Ret × List ℕ
truncate s n = if ltb (length s) n then (error, s) else (success, take n s)

-- `erasable` bytes may be taken off the end of the stream.
unfoldable pub erase : ℕ → List ℕ → ℕ → Ret × List ℕ
erase erasable s n = if ltb erasable n then (error, s) else (success, take (length s - n) s)
