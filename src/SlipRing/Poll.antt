-- ===== src/SlipRing/Poll.antt =====
-- What a complete frame leads to.
use mathlib.Core.Path.{subst}
use launch_core.Prelude.{
  sym, ◌⊎◌, ◌∙◌, inl, inr, Option, some, success, error, Bool-cases, ltb→lt, ℕ, suc, ◌+◌, ◌-◌, ◌/◌,
  ◌%◌, ◌^◌, ◌≤◌, ◌<◌, ◌≡◌, refl, ap, true, false, List, [], ◌∷◌, ltb, leb, take, drop, blit,
  blit-nil, length, Ret, size_mod, slice-blit_self, arith,
}
use launch_core.Packet.{Packet, push, clear}
use launch_core.Packet.Spec
use launch_core.Packet.Invariant.{IsValid, Fits, pushed, cleared, here, next, Reach-IsValid}
use launch_core.Packet.Stream.{unread, IsReadable, push-unread}
use launch_core.Slip.Framing.{frame, framed}
use launch_core.Slip.Encoding.{encode-frame}
use launch_core.Net.ByteOrder.{load}
use launch_core.SlipRing.{Device, header_size, bytes32, pass_up, complete}

same_payload :
    (xs : List ℕ) (a b c d n : ℕ)
    → drop 4 (take (suc (suc (suc (suc n)))) (blit xs 0 (a ∷ b ∷ c ∷ d ∷ [])))
      ≡ drop 4 (take (suc (suc (suc (suc n)))) xs)
same_payload [] a b c d n = refl
same_payload (w ∷ []) a b c d n = refl
same_payload (w ∷ x ∷ []) a b c d n = refl
same_payload (w ∷ x ∷ y ∷ []) a b c d n = refl
same_payload (w ∷ x ∷ y ∷ z ∷ xs) a b c d n = ap (take n) (blit-nil xs 0)

-- the device after the time to live in the decoder's buffer was made one less
abbrev pub aged : Device → Device
aged d = record d {
  decoder = record d.decoder {
    buff =
        blit d.decoder.buff 0
          (bytes32 ((load (take header_size d.decoder.buff) + 2 ^ 32 - 1) % 2 ^ 32));
  };
}

-- the bytes of the decoder's frame
abbrev pub frame_bytes : Device → List ℕ
frame_bytes d = take d.decoder.len d.decoder.buff

long_frame : (n : ℕ) → 4 < n → (m : ℕ) × (n ≡ suc (suc (suc (suc m))))
long_frame n h = (n - 4, omega arith)

payload-aged :
    (d : Device)
    → header_size < d.decoder.len
    → drop header_size (frame_bytes (aged d)) ≡ drop header_size (frame_bytes d)
payload-aged d h =
    let (m, e) = long_frame d.decoder.len h in
    let ttl = (load (take header_size d.decoder.buff) + 2 ^ 32 - 1) % 2 ^ 32 in
    rw e (
      same_payload d.decoder.buff (ttl % 256) (ttl / 256 % 256) (ttl / 256 / 256 % 256)
        (ttl / 256 / 256 / 256 % 256) m)

-- The payload goes up: the upper layer is given a packet of which it is what can be read, and the
-- device keeps what that makes of it; or it is too long for the packet, which is empty then.
abbrev pub HandsUp :
    (Packet → Ret × Packet)
    → Device
    → List ℕ
    → List (List ℕ)
    → Option (Ret × Device × List (List ℕ))
    → Type 0
HandsUp net d payload written result =
    ((length payload ≤ d.packet.size - d.packet.header_size)
      × ((q : Packet) × IsValid q
          × (unread q ≡ payload)
          × (q.hpos ≡ q.header_size)
          × (result ≡ some ((net q).0, record d { packet = (net q).1 }, written))))
    ⊎ ((d.packet.size - d.packet.header_size < length payload)
        × ((q : Packet) × (unread q ≡ [])
            × (result ≡ some (error, record d { packet = q }, written))))

too_long :
    (n : ℕ) (src : List ℕ)
    → ((n < length src) × (Spec.push n [] src ≡ (error, [])))
      ⊎ ((length src ≤ n) × (Spec.push n [] src ≡ (success, src)))
unfolding Spec.push
too_long n src = elim (Bool-cases (ltb n (length src))) [
  | inl o ↦ inl (ltb→lt n (length src) o, rw o refl)
  | inr o ↦ inr (ground (arith, o), rw o refl)
]

empty_unread : (p : Packet) → unread (clear p) ≡ []
unfolding clear
empty_unread p = let none : p.header_size - p.header_size ≡ 0 = omega arith in rw none refl

clear-kept : (p : Packet) → IsValid p → IsValid (clear p) × IsReadable (clear p)
unfolding clear
clear-kept p v = (Reach-IsValid (next here (cleared p)) v, omega arith)

first_header :
    (p : Packet) (payload : List ℕ) (q : Packet)
    → (((push (clear p) payload).0 ≡ success)
        × (q ≡ record (clear p) { buf = q.buf; wpos = (clear p).wpos + length payload }))
      ⊎ (((push (clear p) payload).0 ≡ error) × (q ≡ clear p))
    → (push (clear p) payload).0 ≡ success
    → q.hpos ≡ q.header_size
unfolding clear
first_header p payload q (inl (_, e)) ok = ap (λ x. x.hpos) e ∙ sym (ap (λ x. x.header_size) e)
first_header p payload q (inr (_, e)) ok = ap (λ x. x.hpos) e ∙ sym (ap (λ x. x.header_size) e)

pass_up-HandsUp :
    (net : Packet → Ret × Packet) (d : Device) (payload : List ℕ) (written : List (List ℕ))
    → IsValid d.packet
    → Fits d.packet (length payload)
    → HandsUp net d payload written (pass_up net d payload written)
unfolding clear
pass_up-HandsUp net d payload written v f =
    let (cv, cr) = clear-kept d.packet v in
    let q = (push (clear d.packet) payload).1 in
    let (both, cases) = push-unread cv cr payload f in
    let empty = empty_unread d.packet in
    let spec : ((push (clear d.packet) payload).0, unread q)
        ≡ Spec.push (d.packet.size - d.packet.header_size) [] payload =
      both ∙ ap (λ l. Spec.push (d.packet.size - d.packet.header_size) l payload) empty in
    elim (too_long (d.packet.size - d.packet.header_size) payload) [
      | inl (long, e) ↦
          let r : (push (clear d.packet) payload).0 ≡ error = ap (λ x. x.0) (spec ∙ e) in
          inr (long, (q, ap (λ x. x.1) (spec ∙ e), rw (r, pass_up) refl))
      | inr (short, e) ↦
          let r : (push (clear d.packet) payload).0 ≡ success = ap (λ x. x.0) (spec ∙ e) in
          inl (
            short,
            (
              q,
              Reach-IsValid (next here (pushed (clear d.packet) payload f)) cv,
              ap (λ x. x.1) (spec ∙ e),
              first_header d.packet payload q cases r,
              rw (r, pass_up) refl,
            ),
          )
    ]

-- Which payload goes up, and what is written before.
complete-pass_up :
    (net : Packet → Ret × Packet) (d : Device)
    → header_size < d.decoder.len
    → (load (take header_size d.decoder.buff) ≡ 1
        → complete net d ≡ pass_up net (aged d) (drop header_size (frame_bytes d)) [])
      × (1 < load (take header_size d.decoder.buff)
          → load (take header_size d.decoder.buff) < 2 ^ 32
          → d.encoder.size ≤ length d.encoder.buff
          → d.encoder.size < size_mod
          → length (frame (frame_bytes (aged d))) ≤ d.encoder.size
          → complete net d
            ≡ pass_up net
                (record (aged d) { encoder = framed d.encoder (frame_bytes (aged d)) })
                (drop header_size (frame (frame_bytes (aged d))))
                (frame (frame_bytes (aged d)) ∷ []))
unfolding complete
complete-pass_up net d h =
    let long : leb d.decoder.len header_size ≡ false = ground arith in
    let start = load (take header_size d.decoder.buff) in
    (
      λ one.
          let over : ltb 0 ((start + 2 ^ 32 - 1) % 2 ^ 32) ≡ false = ground (arith, one) in
          rw (long, over) (ap (λ t. pass_up net (aged d) t []) (payload-aged d h)),
      λ more small memory bound fits.
          let on : ltb 0 ((start + 2 ^ 32 - 1) % 2 ^ 32) ≡ true = ground arith in
          rw (long, on, encode-frame d.encoder (frame_bytes (aged d)) memory bound fits)
            (ap
              (λ t.
                pass_up net (record (aged d) { encoder = framed d.encoder (frame_bytes (aged d)) })
                  (drop header_size t) (t ∷ []))
              (slice-blit_self d.encoder.buff 0 (frame (frame_bytes (aged d))) (omega arith))),
    )

-- A complete frame that is longer than its header, on a device whose packet is well formed, with
-- lengths that do not wrap. With a time to live of 1 the frame is not sent on, and its payload is
-- handed up: the upper layer gets the emptied packet with just the payload to read, or, if the packet
-- is too small for it, an error is returned and the packet is empty. With a greater time to live, and
-- where the encoder has the room, the frame is sent on with a time to live of one less; but what is
-- handed up in this way is then the frame as it was sent, without its first four bytes.
pub complete-ttl :
    (net : Packet → Ret × Packet) (d : Device)
    → header_size < d.decoder.len
    → IsValid d.packet
    → (load (take header_size d.decoder.buff) ≡ 1
        → Fits d.packet (length (drop header_size (frame_bytes d)))
        → HandsUp net (aged d) (drop header_size (frame_bytes d)) [] (complete net d))
      × (1 < load (take header_size d.decoder.buff)
          → load (take header_size d.decoder.buff) < 2 ^ 32
          → d.encoder.size ≤ length d.encoder.buff
          → d.encoder.size < size_mod
          → length (frame (frame_bytes (aged d))) ≤ d.encoder.size
          → Fits d.packet (length (drop header_size (frame (frame_bytes (aged d)))))
          → HandsUp net
              (record (aged d) { encoder = framed d.encoder (frame_bytes (aged d)) })
              (drop header_size (frame (frame_bytes (aged d))))
              (frame (frame_bytes (aged d)) ∷ [])
              (complete net d))
complete-ttl net d h v =
    let (last, on) = complete-pass_up net d h in
    let sender : Device = record (aged d) { encoder = framed d.encoder (frame_bytes (aged d)) } in
    let sent = frame (frame_bytes (aged d)) in
    (
      λ one f.
          subst (HandsUp net (aged d) (drop header_size (frame_bytes d)) []) (sym (last one))
            (pass_up-HandsUp net (aged d) (drop header_size (frame_bytes d)) [] v f),
      λ more small memory bound fits f.
          subst (HandsUp net sender (drop header_size sent) (sent ∷ []))
            (sym (on more small memory bound fits))
            (pass_up-HandsUp net sender (drop header_size sent) (sent ∷ []) v f),
    )
