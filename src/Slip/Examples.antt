-- ===== src/Slip/Examples.antt =====
-- SLIP's theorems on short payloads, and the tests of both sides.
use launch_core.Prelude.{◌≡◌, refl, [], ◌∷◌, true, false, take, arith}
use launch_core.Slip.{Encoder, encode_loop, encode, Decoder, decoder}
use launch_core.Slip.Decoding.{Waits, feed, feed-encode}

-- an encoder whose buffer is the first four bytes of a memory of six
abbrev four : Encoder
four = record { buff = 0 ∷ 0 ∷ 0 ∷ 0 ∷ 7 ∷ 8 ∷ []; len = 4; size = 4 }

abbrev two_bytes : Decoder
two_bytes = decoder (0 ∷ 0 ∷ []) 2

two_bytes-Waits : Waits two_bytes 2
two_bytes-Waits = record { waiting = refl; size = refl; memory = omega arith }

encode-four :
    encode four (1 ∷ 192 ∷ [])
    ≡ (true, record { buff = 192 ∷ 1 ∷ 219 ∷ 220 ∷ 192 ∷ 8 ∷ []; len = 5; size = 4 })
unfolding encode encode_loop
encode-four = refl

encode-too_long : (encode four (1 ∷ 2 ∷ 3 ∷ [])).0 ≡ false
unfolding encode encode_loop
encode-too_long = refl

feed-encode_example :
    ((encode four (1 ∷ 2 ∷ [])).0 ≡ true)
    × ((feed two_bytes (take (encode four (1 ∷ 2 ∷ [])).1.len (encode four (1 ∷ 2 ∷ [])).1.buff)).0
        ≡ (1 ∷ 2 ∷ []) ∷ [])
feed-encode_example =
    feed-encode four two_bytes 2 (1 ∷ 2 ∷ []) (omega arith) (omega arith) (omega arith)
      two_bytes-Waits (omega arith) (refl, refl, (refl, refl, refl))
