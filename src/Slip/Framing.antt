-- ===== src/Slip/Framing.antt =====
-- RFC 1055's framing, and the loop of `encode`.
use launch_core.Prelude.{
  ℕ, zero, suc, ◌+◌, ◌-◌, ◌≤◌, ◌<◌, ◌≡◌, refl, sym, ap, ap₂, ◌∙◌, Bool, true, false, ◌&&◌, List, [],
  ◌∷◌, ◌++◌, append-nil, if◌then◌else◌, ltb, ◌==◌, get_or, get_elem?, set, length, length-append,
  blit, blit-nil, some, sub_size, Bool-cases, inl, inr, arith,
}
use launch_core.Slip.{
  slip_end, slip_esc, slip_esc_end, slip_esc_esc, Encoder, put_byte, encode_loop, encode_end,
  encode,
}

-- how a byte goes over the line
abbrev pub escaped : ℕ → List ℕ
escaped byte =
    if byte == slip_end
    then slip_esc ∷ slip_esc_end ∷ []
    else if byte == slip_esc
    then slip_esc ∷ slip_esc_esc ∷ []
    else byte ∷ []

abbrev pub escape_all : List ℕ → List ℕ
escape_all [] = []
escape_all (byte ∷ bytes) = escaped byte ++ escape_all bytes

-- The frame of RFC 1055, with an END before it.
abbrev pub frame : List ℕ → List ℕ
frame bytes = slip_end ∷ escape_all bytes ++ slip_end ∷ []

-- The encoder with the frame in its memory.
abbrev pub framed : Encoder → List ℕ → Encoder
framed e bytes = record e { buff = blit e.buff 0 (frame bytes); len = length (frame bytes) }

pub blit-cons :
    (xs : List ℕ) (i y : ℕ) (ys : List ℕ) → blit (set xs i y) (suc i) ys ≡ blit xs i (y ∷ ys)
blit-cons [] i y ys = refl
blit-cons (x ∷ xs) zero y ys = refl
blit-cons (x ∷ xs) (suc i) y ys = ap (λ t. x ∷ t) (blit-cons xs i y ys)

set-blit :
    (xs : List ℕ) (i n : ℕ) (ys : List ℕ) (z : ℕ)
    → n ≡ i + length ys
    → set (blit xs i ys) n z ≡ blit xs i (ys ++ z ∷ [])
set-blit [] i n ys z e = refl
set-blit (x ∷ xs) zero zero [] z e = ap (λ t. z ∷ t) (sym (blit-nil xs 0))
set-blit (x ∷ xs) zero zero (y ∷ ys) z e = absurd (omega arith)
set-blit (x ∷ xs) zero (suc n) [] z e = absurd (omega arith)
set-blit (x ∷ xs) zero (suc n) (y ∷ ys) z e =
    ap (λ t. y ∷ t) (set-blit xs zero n ys z (omega arith))
set-blit (x ∷ xs) (suc i) zero ys z e = absurd (omega arith)
set-blit (x ∷ xs) (suc i) (suc n) ys z e = ap (λ t. x ∷ t) (set-blit xs i n ys z (omega arith))

get_or-blit :
    (xs ys : List ℕ) (n d : ℕ)
    → n < length ys
    → length ys ≤ length xs
    → get_or (blit xs 0 ys) n d ≡ get_or ys n d
get_or-blit [] [] n d p q = refl
get_or-blit [] (y ∷ ys) n d p q = absurd (omega arith)
get_or-blit (x ∷ xs) [] n d p q = absurd (omega arith)
get_or-blit (x ∷ xs) (y ∷ ys) zero d p q = refl
get_or-blit (x ∷ xs) (y ∷ ys) (suc n) d p q = get_or-blit xs ys n d (omega arith) (omega arith)

-- One turn of the loop writes one byte's escape.
put_byte-escaped :
    (byte i : ℕ) (buff bytes : List ℕ)
    → ((put_byte byte i buff).0 ≡ i + length (escaped byte))
      × (blit (put_byte byte i buff).1 (put_byte byte i buff).0 bytes
          ≡ blit buff i (escaped byte ++ bytes))
put_byte-escaped byte i buff bytes = elim (Bool-cases (byte == slip_end)) [
  | inl b ↦ rw b (
    omega arith,
    blit-cons (set buff i slip_esc) (suc i) slip_esc_end bytes
        ∙ blit-cons buff i slip_esc (slip_esc_end ∷ bytes),
  )
  | inr b ↦ elim (Bool-cases (byte == slip_esc)) [
    | inl c ↦
        rw (b, c)
          (
            omega arith,
            blit-cons (set buff i slip_esc) (suc i) slip_esc_esc bytes
                ∙ blit-cons buff i slip_esc (slip_esc_esc ∷ bytes),
          )
    | inr c ↦ rw (b, c) (omega arith, blit-cons buff i byte bytes)
  ]
]

escaped_pos : (byte : ℕ) → 0 < length (escaped byte)
escaped_pos byte = ground arith

-- The loop runs through the bytes while their escapes stay within the limit.
pub encode_loop-append :
    (limit : ℕ) (bytes more : List ℕ) (i : ℕ) (buff : List ℕ)
    → i + length (escape_all bytes) ≤ limit
    → encode_loop limit (bytes ++ more) i buff
      ≡ encode_loop limit more (i + length (escape_all bytes)) (blit buff i (escape_all bytes))
unfolding encode_loop
encode_loop-append limit [] more i buff h =
    ap₂ (encode_loop limit more) (omega arith) (sym (blit-nil buff i))
encode_loop-append limit (byte ∷ bytes) more i buff h =
    let turn = put_byte-escaped byte i buff (escape_all bytes) in
    let sum = length-append (escaped byte) (escape_all bytes) in
    let first = escaped_pos byte in
    let inside : ltb i limit ≡ true = ground arith in
    rw inside (
      encode_loop-append limit bytes more (put_byte byte i buff).0 (put_byte byte i buff).1
        (omega (arith, turn.0))
      ∙ ap₂ (encode_loop limit more) (omega (arith, turn.0)) turn.1)

-- The last byte that an escape writes is no ESC.
last-escape_all :
    (byte : ℕ) (bytes : List ℕ)
    → (byte == slip_esc) ≡ false
    → (get_or (byte ∷ escape_all bytes) (length (escape_all bytes)) 0 == slip_esc) ≡ false
last-escape_all byte [] h = h
last-escape_all byte (b ∷ bytes) h = elim (Bool-cases (b == slip_end)) [
  | inl y ↦ rw y (last-escape_all slip_esc_end bytes refl)
  | inr n ↦ elim (Bool-cases (b == slip_esc)) [
    | inl y ↦ rw (n, y) (last-escape_all slip_esc_esc bytes refl)
    | inr n' ↦ rw (n, n') (last-escape_all b bytes n')
  ]
]

and_false : (a : Bool) → (a && false) ≡ false
and_false true = refl
and_false false = refl

encode_end-closes :
    (e : Encoder) (i : ℕ) (buff : List ℕ)
    → (get_or buff (i - 1) 0 == slip_esc) ≡ false
    → encode_end e ([], i, buff) ≡ (true, record e { buff = set buff i slip_end; len = suc i })
encode_end-closes e i buff h = rw (h, and_false (ltb 1 i && (i == sub_size e.size 1))) refl

-- After a loop that ran through the bytes, `encode` closes the frame.
pub encode-closes :
    (e : Encoder) (bytes : List ℕ)
    → length (escape_all bytes) < length e.buff
    → encode_loop (sub_size e.size 1) bytes 1 (set e.buff 0 slip_end)
      ≡ ([], 1 + length (escape_all bytes), blit e.buff 0 (slip_end ∷ escape_all bytes))
    → encode e bytes ≡ (true, framed e bytes)
unfolding encode
encode-closes e bytes room ran = rw ran (
    encode_end-closes e (1 + length (escape_all bytes))
      (blit e.buff 0 (slip_end ∷ escape_all bytes)) last
    ∙ ap₂ (λ b n. (true, record e { buff = b; len = n })) closed long)
  where
    here : 1 + length (escape_all bytes) - 1 ≡ length (escape_all bytes)
    here = omega arith

    last :
        (get_or (blit e.buff 0 (slip_end ∷ escape_all bytes)) (1 + length (escape_all bytes) - 1) 0
          == slip_esc)
        ≡ false
    last =
        rw
          (
            here,
            get_or-blit e.buff (slip_end ∷ escape_all bytes) (length (escape_all bytes)) 0
                (omega arith) (omega (arith, room)),
          )
          (last-escape_all slip_end bytes refl)

    closed :
        set (blit e.buff 0 (slip_end ∷ escape_all bytes)) (1 + length (escape_all bytes)) slip_end
        ≡ blit e.buff 0 (frame bytes)
    closed =
        set-blit e.buff 0 (1 + length (escape_all bytes)) (slip_end ∷ escape_all bytes) slip_end
          (omega arith)

    long : suc (1 + length (escape_all bytes)) ≡ length (frame bytes)
    long = omega (arith, length-append (escape_all bytes) (slip_end ∷ []))

-- The loop also writes an escape that goes past the limit, where it starts before it.
pub encode_loop-last :
    (limit : ℕ) (bytes : List ℕ) (byte i : ℕ) (buff : List ℕ)
    → i + length (escape_all bytes) < limit
    → encode_loop limit (bytes ++ byte ∷ []) i buff ≡ (
      [],
      i + length (escape_all (bytes ++ byte ∷ [])),
      blit buff i (escape_all (bytes ++ byte ∷ [])),
    )
unfolding encode_loop
encode_loop-last limit [] byte i buff h =
    let turn = put_byte-escaped byte i buff [] in
    let inside : ltb i limit ≡ true = ground arith in
    rw inside (
      ap₂ (λ n t. ([], n, t)) (turn.0 ∙ ap (λ t. i + length t) (sym (append-nil (escaped byte))))
        (sym (blit-nil (put_byte byte i buff).1 (put_byte byte i buff).0) ∙ turn.1))
encode_loop-last limit (b ∷ bytes) byte i buff h =
    let turn = put_byte-escaped b i buff (escape_all (bytes ++ byte ∷ [])) in
    let sum = length-append (escaped b) (escape_all bytes) in
    let sum' = length-append (escaped b) (escape_all (bytes ++ byte ∷ [])) in
    let inside : ltb i limit ≡ true = ground arith in
    rw inside (
      encode_loop-last limit bytes byte (put_byte b i buff).0 (put_byte b i buff).1
        (omega (arith, turn.0))
      ∙ ap₂ (λ n t. ([], n, t)) (omega (arith, turn.0)) turn.1)

pub escape_all-snoc :
    (bytes : List ℕ) (byte : ℕ)
    → length (escape_all (bytes ++ byte ∷ [])) ≡ length (escape_all bytes) + length (escaped byte)
escape_all-snoc [] byte = omega (arith, ap length (append-nil (escaped byte)))
escape_all-snoc (b ∷ bytes) byte =
    let sum = length-append (escaped b) (escape_all bytes) in
    let sum' = length-append (escaped b) (escape_all (bytes ++ byte ∷ [])) in
    omega (arith, escape_all-snoc bytes byte)

get_elem?-blit :
    (xs ys : List ℕ) (z n : ℕ)
    → n ≡ length ys
    → n < length xs
    → get_elem? (blit xs 0 (ys ++ z ∷ [])) n ≡ some z
get_elem?-blit [] ys z n e p = absurd (omega arith)
get_elem?-blit (x ∷ xs) [] z zero e p = refl
get_elem?-blit (x ∷ xs) [] z (suc n) e p = absurd (omega arith)
get_elem?-blit (x ∷ xs) (y ∷ ys) z zero e p = absurd (omega arith)
get_elem?-blit (x ∷ xs) (y ∷ ys) z (suc n) e p =
    get_elem?-blit xs ys z n (omega arith) (omega arith)

-- The last byte of a frame, in memory.
pub last-frame :
    (xs bytes : List ℕ) (n : ℕ)
    → length (frame bytes) ≡ suc n
    → n < length xs
    → get_elem? (blit xs 0 (frame bytes)) n ≡ some slip_end
last-frame xs bytes n long room =
    get_elem?-blit xs (slip_end ∷ escape_all bytes) slip_end n
      (omega (arith, length-append (escape_all bytes) (slip_end ∷ []))) room
