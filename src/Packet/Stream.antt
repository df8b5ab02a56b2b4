-- ===== src/Packet/Stream.antt =====
-- The payload of a packet as a stream of bytes: what was written and not read yet.
use launch_core.Prelude.{
  refl, inl, inr, Bool-cases, ltb, add_size, ◌⊎◌, success, error, ℕ, ◌+◌, ◌-◌, ◌≤◌, ◌≡◌, List,
  arith, length, slice, length-slice, slice-blit_append, take-slice, drop-slice,
}
use launch_core.Packet.{Packet, push, read, truncate, available}
use launch_core.Packet.Spec
use launch_core.Packet.Invariant.{IsValid, Fits}

-- The bytes still to be read.
abbrev pub unread : Packet → List ℕ
unread p = slice p.buf p.rpos (p.wpos - p.rpos)

-- Bytes are to be read, none or more.
abbrev pub IsReadable : Packet → Type 0
IsReadable p = p.rpos ≤ p.wpos

module _ {p : Packet} (v : IsValid p) (h : IsReadable p) where
  length-unread : length (unread p) ≡ p.wpos - p.rpos
  length-unread = length-slice p.buf p.rpos (p.wpos - p.rpos) (omega arith)

  push_cases :
      (src : List ℕ)
      → Fits p (length src)
      → let (r, q) = push p src in
        ((r ≡ success) × (q ≡ record p { buf = q.buf; wpos = p.wpos + length src }))
        ⊎ ((r ≡ error) × (q ≡ p))
  unfolding push
  push_cases src f = elim (Bool-cases (ltb p.size (add_size (length src) p.wpos))) [
    | inl o ↦ rw o (inr (refl, refl))
    | inr o ↦
        let at : add_size p.wpos (length src) ≡ p.wpos + length src = omega (arith, f, v.fits) in
        rw (o, at) (inl (refl, refl))
  ]

  -- `push` appends the whole of `src` to the unread bytes if it fits, and then changes no more than
  -- the buffer and the write position, which goes up by the length of `src`; otherwise it returns an
  -- error and changes nothing.
  pub push-unread :
      (src : List ℕ)
      → Fits p (length src)
      → let (r, q) = push p src in
        ((r, unread q) ≡ Spec.push (p.size - p.wpos) (unread p) src)
        × (((r ≡ success) × (q ≡ record p { buf = q.buf; wpos = p.wpos + length src }))
            ⊎ ((r ≡ error) × (q ≡ p)))
  unfolding push Spec.push
  push-unread src f = (
    ground (
      arith,
      slice-blit_append p.buf p.rpos (p.wpos - p.rpos) p.wpos (p.wpos + length src - p.rpos) src,
    ),
    push_cases src f,
  )

  -- `read` returns the first `n` unread bytes and takes them off if there are as many, and
  -- otherwise returns an error and changes nothing.
  pub read-unread :
      (n : ℕ) → Fits p n → let (r, q, out) = read p n in (r, unread q, out) ≡ Spec.read (unread p) n
  unfolding read Spec.read
  read-unread n f = ground (
    arith,
    length-unread,
    take-slice p.buf p.rpos n (p.wpos - p.rpos),
    drop-slice p.buf p.rpos n (p.wpos - p.rpos) (p.rpos + n) (p.wpos - (p.rpos + n)),
  )

  -- `truncate` keeps the first `n` unread bytes if there are as many, and otherwise returns an
  -- error and changes nothing.
  truncate-unread :
      (n : ℕ) → let (r, q) = truncate p n in (r, unread q) ≡ Spec.truncate (unread p) n
  unfolding truncate available Spec.truncate
  truncate-unread n = ground (arith, length-unread, take-slice p.buf p.rpos n (p.wpos - p.rpos))
