-- ===== src/Packet/Headers.antt =====
-- Headers in front of the payload, and what goes over the wire: the bytes from `raw()` on.
use launch_core.Prelude.{
  ℕ, ◌+◌, ◌-◌, ◌≤◌, ◌<◌, ◌≡◌, true, List, ◌++◌, Option, none, some, Ret, success, arith, length,
  slice, blit, replicate, length-slice, length-blit, slice-blit_prepend, slice-blit_behind,
  take-append, drop-append, length-append, ◌∙◌, ap, slice-blit_before, take-slice, size_mod,
}
use launch_core.Packet.{
  Packet, allocate_header, store, seek_read, read, erase, payload_size, used_header_size,
}
use launch_core.Packet.Invariant.{IsValid, Fits}
use launch_core.Packet.Stream.{unread, read-unread}
use launch_core.Packet.Spec

-- The headers in use and the payload.
abbrev pub frame : Packet → List ℕ
frame p = slice p.buf p.hpos (p.wpos - p.hpos)

-- A layer's use of `allocate_header`: fill in the header that it returned.
unfoldable pub encapsulate : Packet → List ℕ → Option Packet
unfolding allocate_header store
encapsulate p header =
    let (at, q) = allocate_header p (length header) in
    elim at [ none ↦ none | some a ↦ some (store q a header) ]

-- `size() + header_size()` is the number of bytes on the wire.
pub length-frame : {p : Packet} → IsValid p → length (frame p) ≡ payload_size p + used_header_size p
unfolding payload_size used_header_size
length-frame {p} v = omega (arith, length-slice p.buf p.hpos (p.wpos - p.hpos) (omega arith))

-- The packet after a header was put in front.
abbrev with_header : Packet → List ℕ → Packet
with_header p header = record p {
  hpos = p.hpos - length header;
  buf = blit p.buf (p.hpos - length header) header;
}

module _ {p : Packet} (header : List ℕ) (v : IsValid p) where
  encapsulate-with_header :
      length header ≤ p.hpos → encapsulate p header ≡ some (with_header p header)
  unfolding encapsulate
  encapsulate-with_header h = ground arith

  with_header-IsValid : length header ≤ p.hpos → IsValid (with_header p header)
  with_header-IsValid h = omega (arith, length-blit p.buf (p.hpos - length header) header)

  frame-with_header : length header ≤ p.hpos → frame (with_header p header) ≡ header ++ frame p
  frame-with_header h =
      slice-blit_prepend p.buf (p.hpos - length header) p.hpos (p.wpos - p.hpos)
        (p.wpos - (p.hpos - length header)) header (omega arith) (omega arith) (omega arith)

  -- A header that finds room goes in front of the bytes on the wire and leaves the payload that
  -- is to be read alone, and the packet well formed; one that finds no room is refused.
  pub encapsulate_lem :
      p.hpos ≤ p.rpos
      → (length header ≤ p.hpos
          → (q : Packet) × (encapsulate p header ≡ some q)
            × (frame q ≡ header ++ frame p)
            × (unread q ≡ unread p)
            × IsValid q)
        × (p.hpos < length header → encapsulate p header ≡ none)
  unfolding encapsulate
  encapsulate_lem r = (
    λ h. (
      with_header p header,
      encapsulate-with_header h,
      frame-with_header h,
      slice-blit_behind p.buf p.rpos (p.hpos - length header) (p.wpos - p.rpos) header
          (omega arith),
      with_header-IsValid h,
    ),
    λ h. ground arith,
  )

  fits_of_encapsulate :
      {q : Packet}
      → encapsulate p header ≡ some q
      → (length header ≤ p.hpos) × (q ≡ with_header p header)
  unfolding encapsulate
  fits_of_encapsulate e = ground arith

  read-with_header :
      length header ≤ p.hpos
      → Fits p (length header)
      → let (r, q, out) = read (seek_read (with_header p header) true) (length header) in
        ◌≡◌ {A = Ret × List ℕ × List ℕ} (r, unread q, out) (success, frame p, header)
  unfolding seek_read Spec.read
  read-with_header h f =
      read-unread {p = seek_read (with_header p header) true}
        (omega (arith, length-blit p.buf (p.hpos - length header) header)) (omega arith)
        (length header) f
      ∙ rw (frame-with_header h, take-append, drop-append)
          (ground (arith, length-append header (frame p)))

  -- What the layer at the other end does: it rewinds to the headers and reads as many bytes as its
  -- own header has. It gets the header that was put in front, and what was on the wire before is
  -- left to be read.
  pub read-encapsulate :
      {q : Packet}
      → Fits p (length header)
      → encapsulate p header ≡ some q
      → let (r, q', out) = read (seek_read q true) (length header) in
        (r ≡ success) × (out ≡ header) × (unread q' ≡ frame p)
  read-encapsulate {q} f e =
      let (h, same) = fits_of_encapsulate e in
      let got = read-with_header h f in
      rw same (ap (λ t. t.0) got, ap (λ t. t.2) got, ap (λ t. t.1) got)

-- `erase` of no more bytes than are unread drops that many from the end of the stream, or returns an
-- error and changes nothing where it would erase into the headers.
pub erase-unread :
    {p : Packet} (n : ℕ)
    → IsValid p
    → p.rpos + n ≤ p.wpos
    → let (r, q) = erase p n in (r, unread q) ≡ Spec.erase (p.wpos - p.header_size) (unread p) n
unfolding erase Spec.erase
erase-unread {p} n v h = ground (
  arith,
  length-slice p.buf p.rpos (p.wpos - p.rpos),
  slice-blit_before p.buf p.rpos (p.wpos - n - p.rpos) (p.wpos - n) (replicate n 0),
  take-slice p.buf p.rpos (p.wpos - p.rpos - n) (p.wpos - p.rpos),
)

-- Erasing more than was written is not refused: the subtraction wraps, the test passes, and the
-- write position ends behind the buffer.
pub erase_wraps :
    {p : Packet} (n : ℕ)
    → IsValid p
    → p.wpos < n
    → n + p.size < size_mod
    → ((erase p n).0 ≡ success) × (p.size < (erase p n).1.wpos)
unfolding erase
erase_wraps {p} n v h k = ground arith
