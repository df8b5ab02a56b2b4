-- ===== src/Slip.antt =====
-- net/slip/slip.h: the encoder and the decoder of SLIP frames. A buffer is the memory from its first
-- byte on, which may go on behind the buffer's size. A result of type `Bool` tells whether the
-- pointer to `m_buff` is returned or NULL.
pub mod Framing
pub mod Encoding
pub mod Decoding
mod Examples
use launch_core.Prelude.{
  ℕ, zero, suc, ◌-◌, Bool, true, false, not, ◌&&◌, List, [], ◌∷◌, if◌then◌else◌, ltb, ◌==◌, get_or,
  set, sub_size,
}

abbrev pub slip_end : ℕ
slip_end = 192

abbrev pub slip_esc : ℕ
slip_esc = 219

abbrev pub slip_esc_end : ℕ
slip_esc_end = 220

abbrev pub slip_esc_esc : ℕ
slip_esc_esc = 221

-- class UnallocatedSLIPEncoder
pub record Encoder : Type 0 where
  pub buff : List ℕ
  pub len : ℕ
  pub size : ℕ

-- The `switch` of `encode`: a byte is put at `i`, which moves on.
abbrev pub put_byte : ℕ → ℕ → List ℕ → ℕ × List ℕ
put_byte byte i buff =
    if byte == slip_end
    then (suc (suc i), set (set buff i slip_esc) (suc i) slip_esc_end)
    else if byte == slip_esc
    then (suc (suc i), set (set buff i slip_esc) (suc i) slip_esc_esc)
    else (suc i, set buff i byte)

-- The loop of `encode`: the bytes that are left, the index and the buffer when it ends.
pub encode_loop : ℕ → List ℕ → ℕ → List ℕ → List ℕ × ℕ × List ℕ
encode_loop limit [] i buff = ([], i, buff)
encode_loop limit (byte ∷ bytes) i buff =
    let rest = encode_loop limit bytes (put_byte byte i buff).0 (put_byte byte i buff).1 in
    if ltb i limit then rest else (byte ∷ bytes, i, buff)

-- What `encode` does after the loop.
abbrev pub encode_end : Encoder → List ℕ × ℕ × List ℕ → Bool × Encoder
encode_end e (_ ∷ _, i, buff) = (false, record e { buff = buff })
encode_end e ([], i, buff) =
    if (ltb 1 i && (i == sub_size e.size 1)) && (get_or buff (i - 1) 0 == slip_esc)
    then (false, record e { buff = buff })
    else (true, record e { buff = set buff i slip_end; len = suc i })

unfoldable pub encode : Encoder → List ℕ → Bool × Encoder
unfolding encode_loop
encode e bytes = encode_end e (encode_loop (sub_size e.size 1) bytes 1 (set e.buff 0 slip_end))

-- class UnallocatedSLIPDecoder
pub record Decoder : Type 0 where
  pub buff : List ℕ
  pub len : ℕ
  pub size : ℕ
  pub parsing : Bool
  pub escape : Bool

-- The constructor is given the buffer and its size.
abbrev pub decoder : List ℕ → ℕ → Decoder
decoder buffer size = record {
  buff = buffer;
  len = 0;
  size = size;
  parsing = false;
  escape = false;
}

-- `push` from "never an escape if made it here" on: it stores `byte`.
abbrev pub store : Decoder → ℕ → Bool × Decoder
store d byte =
    if d.len == d.size
    then (false, record d { escape = false; parsing = false })
    else (false, record d { escape = false; buff = set d.buff d.len byte; len = suc d.len })

-- `push` in the decoder. The `switch` also computes the byte that an escape stands for, in a
-- variable that the code after it does not read.
abbrev pub push : Decoder → ℕ → Bool × Decoder
push d byte =
    if not d.parsing && (byte == slip_end)
    then (false, record d { escape = false; parsing = true; len = 0 })
    else if byte == slip_end
    then (true, record d { parsing = false })
    else if byte == slip_esc
    then (false, record d { escape = true })
    else store d byte
