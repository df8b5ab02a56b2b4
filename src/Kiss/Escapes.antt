-- ===== src/Kiss/Escapes.antt =====
-- What `push_data` appends to a frame.
use launch_core.Prelude.{
  ℕ, ◌+◌, ◌-◌, ◌≤◌, ◌<◌, ◌≡◌, refl, sym, ap, ◌∙◌, ◌&&◌, Bool, true, false, some, List, [], ◌∷◌,
  ◌++◌, append-nil, append_assoc, if◌then◌else◌, ltb, le_test, ◌==◌, get_or, length, length-blit,
  slice, slice-blit_append, slice-blit_before, Bool-cases, inl, inr, size_mod, add_size, sub_size,
  blit, Ret, success, arith,
}
use launch_core.Packet.{Packet, push, erase, write_ptr, capacity}
use launch_core.Packet.Stream.{unread}
use launch_core.Kiss.{
  frame_end, frame_esc, trans_frame_end, trans_frame_esc, header_size, and_then, push_loop,
  push_escaped, push_data, erase_frame_end,
}

-- A KISSFrame that `n` more bytes fit in: in its buffer, which is shorter than its size by the
-- headers, since the source gives the size of the buffer as the size without the headers.
pub record HasRoom (p : Packet) (n : ℕ) : Type 0 where
  pub storage : length p.buf + header_size ≡ p.size
  pub headers : p.header_size ≡ header_size
  pub small : p.size + 1 < size_mod
  pub written : header_size ≤ p.wpos
  pub reading : p.rpos ≤ p.wpos
  pub room : p.wpos + n ≤ length p.buf

-- How a byte stands in the frame.
abbrev pub escaped : ℕ → List ℕ
escaped byte =
    if byte == frame_end
    then frame_esc ∷ byte ∷ []
    else if byte == trans_frame_end
    then trans_frame_esc ∷ byte ∷ []
    else byte ∷ []

abbrev pub escape_all : List ℕ → List ℕ
escape_all [] = []
escape_all (byte ∷ bytes) = escaped byte ++ escape_all bytes

-- Whether two transposed ESC stand side by side, of which one may be the byte before the data.
abbrev pub aborts : ℕ → List ℕ → Bool
aborts before [] = false
aborts before (byte ∷ bytes) =
    if (byte == trans_frame_esc) && (before == trans_frame_esc) then true else aborts byte bytes

-- A call that succeeds on `p` and appends `bytes`, and leaves room for `m` more.
abbrev Appends : Packet → List ℕ → ℕ → Ret × Packet → Type 0
Appends p bytes m t =
    (q : Packet) × (t ≡ (success, q)) × HasRoom q m × (unread q ≡ unread p ++ bytes)

same_room : (p : Packet) (n m : ℕ) → n ≡ m → HasRoom p n → HasRoom p m
same_room p n m e o = record {
  storage = o.storage;
  headers = o.headers;
  small = o.small;
  written = o.written;
  reading = o.reading;
  room = omega (arith, o.room, e);
}

push_byte :
    (p : Packet) (byte m : ℕ) → HasRoom p (1 + m) → Appends p (byte ∷ []) m (push p (byte ∷ []))
unfolding push
push_byte p byte m o =
    let fine : ltb p.size (add_size 1 p.wpos) ≡ false =
      le_test (add_size 1 p.wpos) p.size (omega (arith, o.storage, o.small, o.room)) in
    let at : add_size p.wpos 1 ≡ p.wpos + 1 = omega (arith, o.storage, o.small, o.room) in
    let same : length (blit p.buf p.wpos (byte ∷ [])) ≡ length p.buf =
      length-blit p.buf p.wpos (byte ∷ []) in
    let q : Packet = record p { buf = blit p.buf p.wpos (byte ∷ []); wpos = p.wpos + 1 } in
    (
      q,
      rw (fine, at, push) refl,
      record {
        storage = ap (λ n. n + header_size) same ∙ o.storage;
        headers = o.headers;
        small = o.small;
        written = omega (arith, o.written);
        reading = omega (arith, o.reading);
        room = omega (arith, same, o.room);
      },
      slice-blit_append p.buf p.rpos (p.wpos - p.rpos) p.wpos (p.wpos + 1 - p.rpos) (byte ∷ [])
          (omega (arith, o.reading)) (omega (arith, o.reading)) (omega (arith, o.room)),
    )

-- Two steps in a row.
then-Appends :
    (p : Packet) (xs ys : List ℕ) (n m : ℕ) (t : Ret × Packet) (f : Packet → Ret × Packet)
    → Appends p xs n t
    → ((q : Packet) → HasRoom q n → Appends q ys m (f q))
    → Appends p (xs ++ ys) m (and_then t f)
then-Appends p xs ys n m t f (q, e, o, u) g =
    let (r, e', o', u') = g q o in
    (r, ap (λ s. and_then s f) e ∙ e', o', u' ∙ ap (λ z. z ++ ys) u ∙ append_assoc (unread p) xs ys)

-- What the loop does from a byte on, given what it does to the bytes behind.
module _ (byte : ℕ) (bytes : List ℕ) (n m : ℕ)
    (rest : (q : Packet)
      → HasRoom q n
      → Appends q (escape_all bytes) m (push_loop byte bytes q)) where
  plain :
      (q : Packet)
      → HasRoom q (1 + n)
      → Appends q
          (byte ∷ escape_all bytes)
          m
          (and_then (push q (byte ∷ [])) (λ q'. push_loop byte bytes q'))
  plain q o =
      then-Appends q (byte ∷ []) (escape_all bytes) n m (push q (byte ∷ []))
        (λ q'. push_loop byte bytes q') (push_byte q byte n o) rest

  special :
      (esc : ℕ) (p : Packet)
      → HasRoom p (1 + (1 + n))
      → Appends p (esc ∷ byte ∷ escape_all bytes) m (
          and_then
            (push p (esc ∷ []))
            (λ q. and_then (push q (byte ∷ [])) (λ q'. push_loop byte bytes q')))
  special esc p o =
      then-Appends p (esc ∷ []) (byte ∷ escape_all bytes) (1 + n) m (push p (esc ∷ []))
        (λ q. and_then (push q (byte ∷ [])) (λ q'. push_loop byte bytes q'))
        (push_byte p esc (1 + n) o) plain

push_loop-Appends :
    (bytes : List ℕ) (before : ℕ) (p : Packet) (m : ℕ)
    → aborts before bytes ≡ false
    → HasRoom p (length (escape_all bytes) + m)
    → Appends p (escape_all bytes) m (push_loop before bytes p)
push_loop-Appends [] before p m a o =
    (p, refl, same_room p (0 + m) m (omega arith) o, sym (append-nil (unread p)))
push_loop-Appends (byte ∷ bytes) before p m a o =
    elim (Bool-cases ((byte == trans_frame_esc) && (before == trans_frame_esc))) [
      | inl d ↦ cc (rw d at a)
      | inr d ↦
          let left : aborts byte bytes ≡ false = rw d at a in
          let n : ℕ = length (escape_all bytes) + m in
          let rest : (q : Packet)
              → HasRoom q n
              → Appends q (escape_all bytes) m (push_loop byte bytes q) =
            λ q o'. push_loop-Appends bytes byte q m left o' in
          elim (Bool-cases (byte == frame_end)) [
            | inl b ↦
                let two : length (escape_all (byte ∷ bytes)) + m ≡ 1 + (1 + n) =
                  rw b (omega arith) in
                rw b (special byte bytes n m rest frame_esc p (same_room p _ _ two o))
            | inr b ↦ elim (Bool-cases (byte == trans_frame_end)) [
              | inl c ↦
                  let two : length (escape_all (byte ∷ bytes)) + m ≡ 1 + (1 + n) =
                    rw (b, c) (omega arith) in
                  rw (b, c) (special byte bytes n m rest trans_frame_esc p (same_room p _ _ two o))
              | inr c ↦
                  let one : length (escape_all (byte ∷ bytes)) + m ≡ 1 + n =
                    rw (b, c) (omega arith) in
                  rw (b, c, d) (plain byte bytes n m rest p (same_room p _ _ one o))
            ]
          ]
    ]

length-escape_all : (bytes : List ℕ) → length bytes ≤ length (escape_all bytes)
length-escape_all [] = omega arith
length-escape_all (byte ∷ bytes) = ground (arith, length-escape_all bytes)

push_escaped-Appends :
    (p : Packet) (before : ℕ) (bytes : List ℕ)
    → aborts before bytes ≡ false
    → HasRoom p (length (escape_all bytes) + 1)
    → Appends p (escape_all bytes ++ frame_end ∷ []) 0 (push_escaped before bytes p)
unfolding capacity
push_escaped-Appends p before bytes a o =
    let whole : capacity p ≡ length p.buf = omega (arith, o.headers, o.storage, o.small) in
    let fine : ltb (capacity p) (length bytes) ≡ false =
      le_test (length bytes) (capacity p) (omega (arith, whole, o.room, length-escape_all bytes)) in
    rw fine (
      then-Appends p (escape_all bytes) (frame_end ∷ []) 1 0 (push_loop before bytes p)
        (λ q. push q (frame_end ∷ [])) (push_loop-Appends bytes before p 1 a o)
        (λ q o'. push_byte q frame_end 0 o'))

-- The end of the frame is taken off; what stands before it stays.
erased_end :
    (p : Packet) (n : ℕ)
    → get_or p.buf (p.wpos - 1) 0 ≡ frame_end
    → header_size + 1 ≤ p.wpos
    → p.rpos + 1 ≤ p.wpos
    → HasRoom p n
    → (q : Packet) × (erase_frame_end p ≡ some (success, q))
      × HasRoom q (1 + n)
      × (unread q ≡ slice p.buf p.rpos (p.wpos - 1 - p.rpos))
unfolding write_ptr erase
erased_end p n last whole behind o =
    let shape : ltb p.size (add_size p.wpos 1) ≡ false =
      le_test (add_size p.wpos 1) p.size (omega (arith, o.storage, o.small, o.room)) in
    let back : sub_size p.wpos 1 ≡ p.wpos - 1 = omega (arith, o.storage, o.small, o.room, whole) in
    let fine : ltb (p.wpos - 1) p.header_size ≡ false =
      le_test p.header_size (p.wpos - 1) (omega (arith, o.headers, whole)) in
    let same : length (blit p.buf (p.wpos - 1) (0 ∷ [])) ≡ length p.buf =
      length-blit p.buf (p.wpos - 1) (0 ∷ []) in
    (
      record p { wpos = p.wpos - 1; buf = blit p.buf (p.wpos - 1) (0 ∷ []) },
      rw (shape, erase_frame_end, write_ptr, last, back, fine, erase) refl,
      record {
        storage = ap (λ k. k + header_size) same ∙ o.storage;
        headers = o.headers;
        small = o.small;
        written = omega (arith, whole);
        reading = omega (arith, behind);
        room = omega (arith, same, o.room, whole);
      },
      slice-blit_before p.buf p.rpos (p.wpos - 1 - p.rpos) (p.wpos - 1) (0 ∷ [])
          (omega (arith, behind)),
    )

push_data-some :
    (p q : Packet) (before : ℕ) (bytes : List ℕ)
    → erase_frame_end p ≡ some (success, q)
    → push_data before bytes p ≡ some (push_escaped before bytes q)
push_data-some p q before bytes e = rw (e, push_data) refl

-- `push_data` on a frame with an end succeeds, if the bytes with their escapes fit in the buffer and
-- no two transposed ESC stand side by side in the data or before it. It takes the end off and
-- appends the bytes, with an ESC before each END and a transposed ESC before each transposed END,
-- and the end of the frame. An escaped END stands in the frame as it is, and an ESC is not escaped.
-- The frame holds more than its header, its end is not read yet, and its size is that of the buffer
-- and the headers, as the constructor makes it.
pub push_data-unread :
    (p : Packet) (before : ℕ) (bytes : List ℕ)
    → HasRoom p (length (escape_all bytes))
    → get_or p.buf (p.wpos - 1) 0 ≡ frame_end
    → header_size + 1 ≤ p.wpos
    → p.rpos + 1 ≤ p.wpos
    → aborts before bytes ≡ false
    → (q : Packet) × (push_data before bytes p ≡ some (success, q))
      × HasRoom q 0
      × (unread q
          ≡ slice p.buf p.rpos (p.wpos - 1 - p.rpos) ++ (escape_all bytes ++ frame_end ∷ []))
push_data-unread p before bytes o last whole behind calm =
    let n : ℕ = length (escape_all bytes) in
    let (cut, erases, o', u) = erased_end p n last whole behind o in
    let (q, pushes, o'', u') =
      push_escaped-Appends cut before bytes calm (same_room cut (1 + n) (n + 1) (omega arith) o') in
    (
      q,
      push_data-some p cut before bytes erases ∙ ap (λ t. some t) pushes,
      o'',
      u' ∙ ap (λ z. z ++ (escape_all bytes ++ frame_end ∷ [])) u,
    )
