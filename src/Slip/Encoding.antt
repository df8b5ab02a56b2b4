-- ===== src/Slip/Encoding.antt =====
-- `encode` in a buffer where the frame fits, and in one that is a byte too small.
use launch_core.Prelude.{
  ℕ, suc, ◌+◌, ◌≤◌, ◌<◌, ◌≡◌, sym, ap, ◌∙◌, true, List, [], ◌∷◌, ◌++◌, append-nil, get_elem?, set,
  length, length-append, blit, some, sub_size, size_mod, arith,
}
use launch_core.Slip.{slip_end, Encoder, encode_loop, encode}
use launch_core.Slip.Framing.{
  escaped, escape_all, frame, framed, blit-cons, encode_loop-append, encode-closes,
  encode_loop-last, escape_all-snoc, last-frame,
}

first_end :
    (buff : List ℕ) (bytes : List ℕ)
    → blit (set buff 0 slip_end) 1 bytes ≡ blit buff 0 (slip_end ∷ bytes)
first_end buff bytes = blit-cons buff 0 slip_end bytes

module _ (e : Encoder) where
  -- `encode` writes the frame of the bytes, and the frame's length, if that fits into the buffer.
  pub encode-frame :
      (bytes : List ℕ)
      → e.size ≤ length e.buff
      → e.size < size_mod
      → length (frame bytes) ≤ e.size
      → encode e bytes ≡ (true, framed e bytes)
  unfolding encode_loop
  encode-frame bytes memory bound fits =
      let long = length-append (escape_all bytes) (slip_end ∷ []) in
      encode-closes e bytes (omega arith) (
        ap (λ t. encode_loop (sub_size e.size 1) t 1 (set e.buff 0 slip_end))
          (sym (append-nil bytes))
        ∙ encode_loop-append (sub_size e.size 1) bytes [] 1 (set e.buff 0 slip_end)
            (omega (arith, long))
        ∙ ended)
    where
      ended :
          encode_loop
            (sub_size e.size 1)
            []
            (1 + length (escape_all bytes))
            (blit (set e.buff 0 slip_end) 1 (escape_all bytes))
          ≡ ([], 1 + length (escape_all bytes), blit e.buff 0 (slip_end ∷ escape_all bytes))
      ended = ap (λ t. ([], 1 + length (escape_all bytes), t)) (first_end e.buff (escape_all bytes))

  -- The frame is one byte longer than the buffer and the last byte is escaped: `encode` reports
  -- success, and has written an END into the memory behind the buffer.
  pub encode_overruns :
      (bytes : List ℕ) (byte : ℕ)
      → e.size < length e.buff
      → e.size < size_mod
      → length (escaped byte) ≡ 2
      → length (frame (bytes ++ byte ∷ [])) ≡ suc e.size
      → (encode e (bytes ++ byte ∷ []) ≡ (true, framed e (bytes ++ byte ∷ [])))
        × (get_elem? (encode e (bytes ++ byte ∷ [])).1.buff e.size ≡ some slip_end)
  encode_overruns bytes byte memory bound special long =
      let count = length-append (escape_all (bytes ++ byte ∷ [])) (slip_end ∷ []) in
      let snoc = escape_all-snoc bytes byte in
      let done = encode-closes e (bytes ++ byte ∷ []) (omega arith) (
        encode_loop-last (sub_size e.size 1) bytes byte 1 (set e.buff 0 slip_end)
          (omega (arith, count, snoc))
        ∙ ap (λ t. ([], 1 + length (escape_all (bytes ++ byte ∷ [])), t))
            (first_end e.buff (escape_all (bytes ++ byte ∷ [])))) in
      (done, rw done (last-frame e.buff (bytes ++ byte ∷ []) e.size long memory))
