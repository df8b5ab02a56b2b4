-- ===== src/Eth/Frame.antt =====
-- What a received frame holds, and where `receive` reads it.

use launch_core.Prelude.{
  ◌≢◌, ◌<◌, le_test, size_mod, ap₂, ◌-◌, ◌%◌, ◌≤◌, ◌&&◌, ◌∙◌, sym, ap, [], ◌∷◌, length, take,
  take-length, get_or, ltb, add_size, ne_of_test, arith, ℕ, ◌+◌, ◌≡◌, ◌⊎◌, refl, Bool, true, false,
  some, List, ◌==◌, ==_iff, slice, Ret, success, error, sub_size, Bool-cases, inl, inr,
}
use launch_core.Net.ByteOrder.{load}
use launch_core.Packet.Invariant.{IsValid, Fits}
use launch_core.Packet.{
  payload_size, used_header_size, Packet, read_ptr, skip_read, truncate, available,
}
use launch_core.Eth.{Layer, header_size, same_mac, calculate_fcs, matches, calculated, transmitted}

-- the packet without its check sequence
abbrev pub body : Packet → Packet
body p = (truncate p (sub_size (available p) 4)).1

-- A frame that holds the header and a check sequence, with the layer's address or the group bit in
-- its destination, and whose last four bytes are the check sequence of the bytes before them.
abbrev pub Accepted : List ℕ → Layer → Packet → Type 0
Accepted table l p =
    (p.rpos + header_size + 4 ≤ p.wpos)
    × ((slice p.buf p.rpos 6 ≡ l.mac) ⊎ (get_or (slice p.buf p.rpos 6) 0 0 % 2 ≡ 1))
    × (calculate_fcs table (slice p.buf p.rpos (p.wpos - p.rpos - 4))
        ≡ load (slice p.buf (p.wpos - 4) 4))

below : (a b : ℕ) → ltb a b ≡ false → b ≤ a
below a b e = ground arith

and_true : (x y : ℕ) (b : Bool) → ((x == y) && b) ≡ true → (x ≡ y) × (b ≡ true)
and_true x y b e = ground arith

same_mac-take : (xs ys : List ℕ) → same_mac xs ys ≡ true → take (length xs) ys ≡ xs
same_mac-take [] ys e = refl
same_mac-take (x ∷ xs) [] e = cc
same_mac-take (x ∷ xs) (y ∷ ys) e =
    let (head, rest) = and_true x y (same_mac xs ys) e in
    ap₂ (λ a l. a ∷ l) (sym head) (same_mac-take xs ys rest)

-- Where the header is, and that it ends before the packet does.
pub header_at :
    (p : Packet) (at : ℕ)
    → IsValid p
    → Fits p header_size
    → read_ptr p header_size ≡ some at
    → (at ≡ p.rpos) × (p.rpos + header_size ≤ p.wpos)
unfolding read_ptr
header_at p at v f e = elim (Bool-cases (ltb p.wpos (add_size p.rpos header_size))) [
  | inl o ↦ cc (rw o at e)
  | inr o ↦
      let same : some p.rpos ≡ some at = rw o at e in
      let rp : p.rpos ≡ at = cc in
      let whole : add_size p.rpos header_size ≡ p.rpos + header_size =
        omega (arith, f, v.reading) in
      let le : add_size p.rpos header_size ≤ p.wpos = ground (arith, o) in
      (sym rp, omega (arith, whole, le))
]

-- A destination that matches is the layer's address or has the group bit.
pub matches-mac :
    (l : Layer) (dst : List ℕ)
    → length l.mac ≡ 6
    → length dst ≡ 6
    → matches l dst ≡ true
    → (dst ≡ l.mac) ⊎ (get_or dst 0 0 % 2 ≡ 1)
matches-mac l dst m n e = elim (Bool-cases (get_or dst 0 0 % 2 == 0)) [
  | inl o ↦
      let same : same_mac dst l.mac ≡ true = rw o at e in
      let all : take (length dst) l.mac ≡ l.mac =
        ap (λ k. take k l.mac) (n ∙ sym m) ∙ take-length l.mac in
      inl (sym (same_mac-take dst l.mac same) ∙ all)
  | inr o ↦ let odd = ne_of_test (get_or dst 0 0 % 2) 0 o in inr (omega (arith, odd))
]

-- The bytes that are checked and the check sequence, where the packet is read from its first header.
pub fcs_bytes :
    (table : List ℕ) (p : Packet)
    → IsValid p
    → p.rpos ≡ p.hpos
    → p.rpos + header_size ≤ p.wpos
    → (calculated table p ≡ calculate_fcs table (slice p.buf p.rpos (p.wpos - p.rpos - 4)))
      × (transmitted p ≡ load (slice p.buf (p.wpos - 4) 4))
unfolding calculated transmitted available payload_size used_header_size
fcs_bytes table p v e le =
    let all : sub_size (add_size (sub_size p.wpos p.header_size) (sub_size p.header_size p.hpos)) 4
        ≡ p.wpos - p.rpos - 4 =
      omega (arith, v.small, v.header, v.written, v.fits, e, le) in
    let last : p.hpos + sub_size (sub_size p.wpos p.rpos) 4 ≡ p.wpos - 4 =
      omega (arith, v.small, v.fits, e, le) in
    (
      ap₂ (λ a b. calculate_fcs table (slice p.buf a b)) (sym e) all,
      ap (λ a. load (slice p.buf a 4)) last,
    )

body_lem :
    (p : Packet)
    → IsValid p
    → p.rpos + header_size ≤ p.wpos
    → body p ≡ record p { wpos = p.wpos - 4 }
unfolding truncate available
body_lem p v le =
    let size : sub_size p.wpos p.rpos ≡ p.wpos - p.rpos = omega (arith, v.fits, v.small, le) in
    let less : sub_size (p.wpos - p.rpos) 4 ≡ p.wpos - p.rpos - 4 =
      omega (arith, v.fits, v.small, le) in
    let cut : sub_size p.wpos (sub_size (p.wpos - p.rpos) (p.wpos - p.rpos - 4)) ≡ p.wpos - 4 =
      omega (arith, v.fits, v.small, le) in
    let fine : ltb (p.wpos - p.rpos) (p.wpos - p.rpos - 4) ≡ false =
      le_test (p.wpos - p.rpos - 4) (p.wpos - p.rpos) (omega arith) in
    rw (size, less, fine, cut, body, truncate, available) refl

skipped_header :
    (r q : Packet)
    → r.rpos + header_size < size_mod
    → skip_read r header_size ≡ (success, q)
    → (r.rpos + header_size ≤ r.wpos) × (q ≡ record r { rpos = r.rpos + header_size })
unfolding skip_read
skipped_header r q f e =
    let whole : add_size r.rpos header_size ≡ r.rpos + header_size = omega (arith, f) in
    elim (Bool-cases (ltb r.wpos (add_size r.rpos header_size))) [
      | inl o ↦
          let bad : ◌≡◌ {A = Ret × Packet} (error, r) (success, q) = rw o at e in
          absurd (error_success (ap (λ x. x.0) bad))
      | inr o ↦
          let le : add_size r.rpos header_size ≤ r.wpos =
            below r.wpos (add_size r.rpos header_size) o in
          let same : ◌≡◌ {A = Ret × Packet}
              (success, record r { rpos = add_size r.rpos header_size }) (success, q) =
            rw o at e in
          (
            omega (arith, whole, le),
            sym (ap (λ x. x.1) same) ∙ ap (λ k. record r { rpos = k }) whole,
          )
    ]
  where
    error_success : error ≢ success
    error_success x = cc

-- The packet that goes up.
pub skip_body :
    (p q : Packet)
    → IsValid p
    → Fits p header_size
    → p.rpos + header_size ≤ p.wpos
    → skip_read (body p) header_size ≡ (success, q)
    → (p.rpos + header_size + 4 ≤ p.wpos)
      × (q ≡ record p { rpos = p.rpos + header_size; wpos = p.wpos - 4 })
skip_body p q v f le e =
    let cut : Packet = record p { wpos = p.wpos - 4 } in
    let from : skip_read cut header_size ≡ (success, q) =
      ap (λ r. skip_read r header_size) (sym (body_lem p v le)) ∙ e in
    let (room, goes) = skipped_header cut q (omega (arith, f, v.reading)) from in
    (omega (arith, room, le), goes)

pub no_header :
    (p : Packet)
    → IsValid p
    → Fits p header_size
    → p.rpos + header_size + 4 ≤ p.wpos
    → read_ptr p header_size ≡ some p.rpos
unfolding read_ptr
no_header p v f room =
    let fine : ltb p.wpos (add_size p.rpos header_size) ≡ false =
      le_test (add_size p.rpos header_size) p.wpos (omega (arith, f, v.reading, room)) in
    rw fine refl

same_mac_refl : (xs : List ℕ) → same_mac xs xs ≡ true
same_mac_refl [] = refl
same_mac_refl (x ∷ xs) = rw (same_mac_refl xs) (ground arith)

-- The destinations that do not match are all the others.
pub mac-matches :
    (l : Layer) (dst : List ℕ) → (dst ≡ l.mac) ⊎ (get_or dst 0 0 % 2 ≡ 1) → matches l dst ≡ true
mac-matches l dst h = elim (Bool-cases (get_or dst 0 0 % 2 == 0)) [
  | inr o ↦ rw o refl
  | inl o ↦ elim h [
    | inl e ↦ rw o (ap (same_mac dst) (sym e) ∙ same_mac_refl dst)
    | inr odd ↦
        let even : get_or dst 0 0 % 2 ≡ 0 = (==_iff (get_or dst 0 0 % 2) 0).0 o in
        absurd (omega (arith, odd, even))
  ]
]

pub skip_room :
    (p : Packet)
    → IsValid p
    → Fits p header_size
    → p.rpos + header_size + 4 ≤ p.wpos
    → (skip_read (body p) header_size).0 ≡ success
unfolding skip_read
skip_room p v f room =
    let fine : ltb (p.wpos - 4) (add_size p.rpos header_size) ≡ false =
      le_test (add_size p.rpos header_size) (p.wpos - 4) (omega (arith, f, v.reading, room)) in
    ap (λ r. (skip_read r header_size).0) (body_lem p v (omega (arith, room))) ∙ rw fine refl
