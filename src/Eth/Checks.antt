-- ===== src/Eth/Checks.antt =====
-- Which frames `receive` passes up.

use launch_core.Prelude.{
  Option, none, ◌≢◌, ap₂, ◌-◌, ◌∙◌, sym, ap, length, length-slice, ne_of_test, arith, ℕ, ◌+◌, ◌≡◌,
  ◌⊎◌, refl, Bool, true, false, some, List, if◌then◌else◌, ◌==◌, ==_iff, slice, Ret, success, error,
  Bool-cases, Option-cases, inl, inr,
}
use launch_core.Packet.Invariant.{IsValid, Fits}
use launch_core.Packet.{Packet, read_ptr, skip_read}
use launch_core.Eth.Frame.{
  body, Accepted, no_header, mac-matches, skip_room, header_at, matches-mac, fcs_bytes, skip_body,
}
use launch_core.Eth.{
  Layer, Info, header_size, matches, calculated, transmitted, skipped, accept, receive,
}

-- What the result of `accept` says of the frame.
abbrev AcceptSpec : List ℕ → Layer → Packet → Info → Bool × Packet × Info → Type 0
AcceptSpec table l p info (false, q, info') = ¬ Accepted table l p
AcceptSpec table l p info (true, q, info') =
    Accepted table l p
    × (q ≡ record p { rpos = p.rpos + header_size; wpos = p.wpos - 4 })
    × (info' ≡ record info { src_mac = slice p.buf (p.rpos + 6) 6 })

-- The receiver's part: a frame that is read from its first header, and a layer with an address.
module _ (table : List ℕ) (l : Layer) (p : Packet) (info : Info) (v : IsValid p)
    (f : Fits p header_size) (first : p.rpos ≡ p.hpos) (mac : length l.mac ≡ 6) where
  not_skipped :
      (t : Ret × Packet) → skip_read (body p) header_size ≡ t → t.0 ≢ success → ¬ Accepted table l p
  not_skipped t k bad (room, m, c) = bad (ap (λ x. x.0) (sym k) ∙ skip_room p v f room)

  from_skipped :
      (at : ℕ) (t : Ret × Packet)
      → skip_read (body p) header_size ≡ t
      → read_ptr p header_size ≡ some at
      → matches l (slice p.buf at 6) ≡ true
      → calculated table p ≡ transmitted p
      → AcceptSpec table l p info (skipped t (record info { src_mac = slice p.buf (at + 6) 6 }))
  from_skipped at (success, q) k e m c =
      let (here, le) = header_at p at v f e in
      let (room, goes) = skip_body p q v f le k in
      let six : length (slice p.buf p.rpos 6) ≡ 6 =
        length-slice p.buf p.rpos 6 (omega (arith, le, v.storage, v.fits)) in
      let (calc, sent) = fcs_bytes table p v first le in
      let hit : matches l (slice p.buf p.rpos 6) ≡ true =
        ap (λ a. matches l (slice p.buf a 6)) (sym here) ∙ m in
      (
        (room, matches-mac l (slice p.buf p.rpos 6) mac six hit, sym calc ∙ c ∙ sent),
        goes,
        ap (λ a. record info { src_mac = slice p.buf (a + 6) 6 }) here,
      )
  from_skipped at (error, q) k e m c = not_skipped (error, q) k (λ x. cc)
  from_skipped at (Ret.blocked, q) k e m c = not_skipped (Ret.blocked, q) k (λ x. cc)
  from_skipped at (Ret.sleep, q) k e m c = not_skipped (Ret.sleep, q) k (λ x. cc)
  from_skipped at (Ret.yield, q) k e m c = not_skipped (Ret.yield, q) k (λ x. cc)

  no_pointer : read_ptr p header_size ≡ none → ¬ Accepted table l p
  no_pointer e (room, m, c) = none_some (sym e ∙ no_header p v f room)
    where
      none_some : ◌≢◌ {A = Option ℕ} none (some p.rpos)
      none_some x = cc

  no_match :
      (at : ℕ)
      → read_ptr p header_size ≡ some at
      → matches l (slice p.buf at 6) ≡ false
      → ¬ Accepted table l p
  no_match at e m (room, d, c) =
      let here = (header_at p at v f e).0 in
      let hit : matches l (slice p.buf at 6) ≡ true =
        ap (λ a. matches l (slice p.buf a 6)) here ∙ mac-matches l (slice p.buf p.rpos 6) d in
      false_true (sym m ∙ hit)
    where
      false_true : false ≢ true
      false_true x = cc

  no_check :
      (at : ℕ)
      → read_ptr p header_size ≡ some at
      → (calculated table p == transmitted p) ≡ false
      → ¬ Accepted table l p
  no_check at e c (room, d, same) =
      let (calc, sent) = fcs_bytes table p v first (header_at p at v f e).1 in
      ne_of_test (calculated table p) (transmitted p) c (calc ∙ same ∙ sym sent)

  accept_lem : AcceptSpec table l p info (accept table l p info)
  unfolding accept
  accept_lem = elim (Option-cases (read_ptr p header_size)) [
    | inl e ↦ rw (e, accept) (no_pointer e)
    | inr (at, e) ↦ elim (Bool-cases (matches l (slice p.buf at 6))) [
      | inr m ↦ rw (e, accept, m) (no_match at e m)
      | inl m ↦ elim (Bool-cases (calculated table p == transmitted p)) [
        | inr c ↦ rw (e, accept, m, c) (no_check at e c)
        | inl c ↦
            rw (e, accept, m, c)
              (from_skipped at (skip_read (body p) header_size) refl e m
                ((==_iff (calculated table p) (transmitted p)).0 c))
      ]
    ]
  ]

-- A frame that holds the header and a check sequence, whose destination is the layer's address or
-- has the group bit set, and whose last four bytes are the check sequence of the bytes before them,
-- is handed to the upper layer, without its header and its check sequence, and with its source
-- address recorded; any other frame is refused with an error. The packet is well formed and is read
-- from its first header, and the layer's address has six bytes.
pub receive-matches :
    (upper : Packet → Info → Ret × Packet × Info) (table : List ℕ) (l : Layer) (p : Packet)
    (info : Info)
    → IsValid p
    → Fits p header_size
    → p.rpos ≡ p.hpos
    → length l.mac ≡ 6
    → ((¬ Accepted table l p) × ((receive upper table l p info).0 ≡ error))
      ⊎ (Accepted table l p
          × (receive upper table l p info
              ≡ upper
                  (record p { rpos = p.rpos + header_size; wpos = p.wpos - 4 })
                  (record info { src_mac = slice p.buf (p.rpos + 6) 6 })))
unfolding receive
receive-matches upper table l p info v f first mac =
    decide (accept table l p info) (accept_lem table l p info v f first mac)
  where
    decide :
        (t : Bool × Packet × Info)
        → AcceptSpec table l p info t
        → ((¬ Accepted table l p) × ((if t.0 then upper t.1 t.2 else (error, t.1, t.2)).0 ≡ error))
          ⊎ (Accepted table l p
              × ((if t.0 then upper t.1 t.2 else (error, t.1, t.2))
                  ≡ upper
                      (record p { rpos = p.rpos + header_size; wpos = p.wpos - 4 })
                      (record info { src_mac = slice p.buf (p.rpos + 6) 6 })))
    decide (false, q, info') other = inl (other, refl)
    decide (true, q, info') (accepted, goes, i) = inr (accepted, ap₂ upper goes i)
