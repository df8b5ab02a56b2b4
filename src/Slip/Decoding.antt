-- ===== src/Slip/Decoding.antt =====
-- The decoder on the frames of the encoder.
use launch_core.Prelude.{
  ℕ, zero, suc, ◌+◌, ◌≤◌, ◌<◌, ◌≡◌, refl, sym, ap, ◌∙◌, true, false, List, [], ◌∷◌, ◌++◌, map,
  append-nil, append_assoc, if◌then◌else◌, ◌==◌, set, take, length, length-append, length-set,
  size_mod, slice-blit_self, Bool-cases, inl, inr, arith,
}
use launch_core.Slip.{
  slip_end, slip_esc, slip_esc_end, slip_esc_esc, Encoder, encode, Decoder, push,
}
use launch_core.Slip.Encoding.{encode-frame}
use launch_core.Slip.Framing.{escaped, escape_all, frame}

-- the bytes that a returned buffer holds
abbrev pub payload : Decoder → List ℕ
payload d = take d.len d.buff

-- The bytes of the line one by one, and the payload each time that a frame is completed.
abbrev pub feed : Decoder → List ℕ → List (List ℕ) × Decoder
feed d [] = ([], d)
feed d (byte ∷ bytes) =
    let rest = feed (push d byte).1 bytes in
    if (push d byte).0 then (payload (push d byte).1 ∷ rest.0, rest.1) else rest

-- What the decoder makes of a byte that was escaped: the second byte of the escape.
abbrev pub mangled : ℕ → ℕ
mangled byte =
    if byte == slip_end then slip_esc_end else if byte == slip_esc then slip_esc_esc else byte

-- Between two frames, with a buffer of `n` bytes.
pub record Waits (d : Decoder) (n : ℕ) : Type 0 where
  pub waiting : d.parsing ≡ false
  pub size : d.size ≡ n
  pub memory : n ≤ length d.buff

-- In a frame, after the bytes `xs` of it.
record Reads (d : Decoder) (n : ℕ) (xs : List ℕ) : Type 0 where
  reading : d.parsing ≡ true
  size : d.size ≡ n
  memory : n ≤ length d.buff
  count : d.len ≡ length xs
  holds : payload d ≡ xs

take-set : (xs : List ℕ) (n y : ℕ) → n < length xs → take (suc n) (set xs n y) ≡ take n xs ++ y ∷ []
take-set [] n y h = absurd (omega arith)
take-set (x ∷ xs) zero y h = refl
take-set (x ∷ xs) (suc n) y h = ap (λ t. x ∷ t) (take-set xs n y (omega arith))

starts :
    (d : Decoder) (n : ℕ)
    → Waits d n
    → ((push d slip_end).0 ≡ false) × Reads (push d slip_end).1 n []
starts d n w =
    rw (w.waiting) (
      refl,
      record { reading = refl; size = w.size; memory = w.memory; count = refl; holds = refl },
    )

module _ (d : Decoder) (n : ℕ) (xs : List ℕ) (r : Reads d n xs) where
  plain :
      (byte : ℕ)
      → (byte == slip_end) ≡ false
      → (byte == slip_esc) ≡ false
      → length xs < n
      → ((push d byte).0 ≡ false) × Reads (push d byte).1 n (xs ++ byte ∷ [])
  plain byte a b room =
      let free : (d.len == d.size) ≡ false = ground (arith, r.count, r.size) in
      rw (r.reading, a, b, free)
        (
          refl,
          record {
            reading = refl;
            size = r.size;
            memory = rw (length-set d.buff d.len byte) r.memory;
            count = omega (arith, r.count, length-append xs (byte ∷ []));
            holds =
                take-set d.buff d.len byte (omega (arith, r.count, r.memory))
                ∙ ap (λ t. t ++ byte ∷ []) r.holds;
          },
        )

  escape : ((push d slip_esc).0 ≡ false) × Reads (push d slip_esc).1 n xs
  escape = rw r.reading (
    refl,
    record { reading = refl; size = r.size; memory = r.memory; count = r.count; holds = r.holds },
  )

  ends :
      ((push d slip_end).0 ≡ true)
      × (payload (push d slip_end).1 ≡ xs)
      × Waits (push d slip_end).1 n
  ends = rw r.reading (refl, r.holds, record { waiting = refl; size = r.size; memory = r.memory })

feed-quiet :
    (d : Decoder) (byte : ℕ) (bytes : List ℕ)
    → (push d byte).0 ≡ false
    → feed d (byte ∷ bytes) ≡ feed (push d byte).1 bytes
feed-quiet d byte bytes quiet = rw quiet refl

-- The bytes that stand for one.
reads :
    (d : Decoder) (n : ℕ) (xs : List ℕ) (byte : ℕ) (more : List ℕ)
    → Reads d n xs
    → length xs < n
    → (d' : Decoder) × Reads d' n (xs ++ mangled byte ∷ [])
      × (feed d (escaped byte ++ more) ≡ feed d' more)
reads d n xs byte more r room = elim (Bool-cases (byte == slip_end)) [
  | inl b ↦ rw b (second slip_esc_end refl refl)
  | inr b ↦ elim (Bool-cases (byte == slip_esc)) [
    | inl c ↦ rw (b, c) (second slip_esc_esc refl refl)
    | inr c ↦
        let (quiet, r') = plain d n xs r byte b c room in
        rw (b, c) ((push d byte).1, r', feed-quiet d byte more quiet)
  ]
]
  where
    second :
        (y : ℕ)
        → (y == slip_end) ≡ false
        → (y == slip_esc) ≡ false
        → (d' : Decoder) × Reads d' n (xs ++ y ∷ []) × (feed d (slip_esc ∷ y ∷ more) ≡ feed d' more)
    second y a b =
        let (quiet, r1) = escape d n xs r in
        let (quiet', r2) = plain (push d slip_esc).1 n xs r1 y a b room in
        (
          (push (push d slip_esc).1 y).1,
          r2,
          feed-quiet d slip_esc (y ∷ more) quiet ∙ feed-quiet (push d slip_esc).1 y more quiet',
        )

-- A frame's bytes, its end and what follows it.
feed-escape_all :
    (d : Decoder) (n : ℕ) (xs bytes more : List ℕ)
    → Reads d n xs
    → length xs + length bytes ≤ n
    → (d' : Decoder) × Waits d' n
      × (feed d (escape_all bytes ++ slip_end ∷ more)
          ≡ ((xs ++ map mangled bytes) ∷ (feed d' more).0, (feed d' more).1))
feed-escape_all d n xs [] more r h =
    let (done, holds, w) = ends d n xs r in
    (
      (push d slip_end).1,
      w,
      rw done (
          ap (λ t. (t ∷ (feed (push d slip_end).1 more).0, (feed (push d slip_end).1 more).1))
            (holds ∙ sym (append-nil xs))),
    )
feed-escape_all d n xs (byte ∷ bytes) more r h =
    let (d', r', e) = reads d n xs byte (escape_all bytes ++ slip_end ∷ more) r (omega arith) in
    let short : length (xs ++ mangled byte ∷ []) + length bytes ≤ n =
      omega (arith, length-append xs (mangled byte ∷ [])) in
    let (d'', w, e') = feed-escape_all d' n (xs ++ mangled byte ∷ []) bytes more r' short in
    (
      d'',
      w,
      ap (feed d) (append_assoc (escaped byte) (escape_all bytes) (slip_end ∷ more))
          ∙ e
          ∙ e'
          ∙ ap (λ t. (t ∷ (feed d'' more).0, (feed d'' more).1))
              (append_assoc xs (mangled byte ∷ []) (map mangled bytes)),
    )

-- A whole frame and what follows it.
feed-frame :
    (d : Decoder) (n : ℕ) (bytes more : List ℕ)
    → Waits d n
    → length bytes ≤ n
    → (d' : Decoder) × Waits d' n
      × (feed d (frame bytes ++ more) ≡ (map mangled bytes ∷ (feed d' more).0, (feed d' more).1))
feed-frame d n bytes more w h =
    let (quiet, r) = starts d n w in
    let (d', w', e) = feed-escape_all (push d slip_end).1 n [] bytes more r (omega arith) in
    (
      d',
      w',
      feed-quiet d slip_end ((escape_all bytes ++ slip_end ∷ []) ++ more) quiet
          ∙ ap (feed (push d slip_end).1) (append_assoc (escape_all bytes) (slip_end ∷ []) more)
          ∙ e,
    )

-- the frames of the payloads, one after the other
abbrev pub frames : List (List ℕ) → List ℕ
frames [] = []
frames (bytes ∷ more) = frame bytes ++ frames more

-- each payload fits into a buffer of `n` bytes
abbrev pub AllFit : ℕ → List (List ℕ) → Type 0
AllFit n [] = 0 ≤ n
AllFit n (bytes ∷ more) = (length bytes ≤ n) × AllFit n more

-- A decoder between two frames that is fed the frames of payloads that fit returns one payload for
-- each of them, in their order; but where a byte of it was escaped, the payload has the second byte
-- of the escape.
pub feed-frames :
    (d : Decoder) (n : ℕ) (payloads : List (List ℕ))
    → Waits d n
    → AllFit n payloads
    → (feed d (frames payloads)).0 ≡ map (map mangled) payloads
feed-frames d n [] w h = refl
feed-frames d n (bytes ∷ more) w (h, hs) =
    let (d', w', e) = feed-frame d n bytes (frames more) w h in
    ap (λ t. t.0) e ∙ ap (λ t. map mangled bytes ∷ t) (feed-frames d' n more w' hs)

-- no byte of the list is escaped
abbrev pub Plain : List ℕ → Type 0
Plain [] = true ≡ true
Plain (byte ∷ bytes) = ((byte == slip_end) ≡ false) × ((byte == slip_esc) ≡ false) × Plain bytes

map-mangled : (bytes : List ℕ) → Plain bytes → map mangled bytes ≡ bytes
map-mangled [] p = refl
map-mangled (byte ∷ bytes) (a, b, p) = rw (a, b) (ap (λ t. byte ∷ t) (map-mangled bytes p))

-- A payload with no END and no ESC in it, whose frame fits into the encoder's buffer and which fits
-- into the decoder's, is encoded, and the decoder makes the payload of what the encoder wrote.
pub feed-encode :
    (e : Encoder) (d : Decoder) (n : ℕ) (bytes : List ℕ)
    → e.size ≤ length e.buff
    → e.size < size_mod
    → length (frame bytes) ≤ e.size
    → Waits d n
    → length bytes ≤ n
    → Plain bytes
    → ((encode e bytes).0 ≡ true)
      × ((feed d (take (encode e bytes).1.len (encode e bytes).1.buff)).0 ≡ bytes ∷ [])
feed-encode e d n bytes memory bound fits w short plain =
    rw (encode-frame e bytes memory bound fits) (
      refl,
      ap (λ t. (feed d t).0)
            (slice-blit_self e.buff 0 (frame bytes) (omega arith) ∙ sym (append-nil (frame bytes)))
          ∙ feed-frames d n (bytes ∷ []) w (short, omega arith)
          ∙ ap (λ t. t ∷ []) (map-mangled bytes plain),
    )
