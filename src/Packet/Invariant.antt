-- ===== src/Packet/Invariant.antt =====
-- The positions of a packet stay ordered and inside the buffer under every operation.
use launch_core.Prelude.{
  ℕ, ◌+◌, ◌≤◌, ◌<◌, ◌≡◌, Bool, List, arith, size_mod, length, length-blit, replicate,
}
use launch_core.Packet.{
  Packet, packet, push, read, skip_read, skip_write, erase, truncate, available, allocate_header,
  seek_read, seek_header, seek_write, clear, store, sub_size,
}

-- hpos ≤ header_size ≤ wpos ≤ size, the read position in the buffer, and no `size_t` overflow.
pub record IsValid (p : Packet) : Type 0 where
  pub storage : length p.buf ≡ p.size
  pub small : p.size < size_mod
  pub header : p.hpos ≤ p.header_size
  pub written : p.header_size ≤ p.wpos
  pub fits : p.wpos ≤ p.size
  pub reading : p.rpos ≤ p.size

-- A run of `n` more bytes does not wrap a position in the packet.
abbrev pub Fits : Packet → ℕ → Type 0
Fits p n = n + p.size < size_mod

-- The calls that a layer makes on a packet; `erase` may not erase more than was written, and
-- `truncate` wants a read position that is not behind the write position, and a result that is not
-- below the headers.
pub data Step : Packet → Packet → Type 0 where
  pushed : (p : Packet) (src : List ℕ) → Fits p (length src) → Step p (push p src).1
  was_read : (p : Packet) (n : ℕ) → Fits p n → Step p (read p n).1
  read_skipped : (p : Packet) (n : ℕ) → Fits p n → Step p (skip_read p n).1
  write_skipped : (p : Packet) (n : ℕ) → Fits p n → Step p (skip_write p n).1
  erased : (p : Packet) (n : ℕ) → n ≤ p.wpos → Step p (erase p n).1
  truncated :
      (p : Packet) (n : ℕ) → p.rpos ≤ p.wpos → p.header_size ≤ p.rpos + n → Step p (truncate p n).1
  allocated : (p : Packet) (n : ℕ) → Step p (allocate_header p n).1
  read_sought : (p : Packet) (b : Bool) → Step p (seek_read p b)
  header_sought : (p : Packet) → Step p (seek_header p)
  write_sought : (p : Packet) → Step p (seek_write p)
  cleared : (p : Packet) → Step p (clear p)
  stored : (p : Packet) (at : ℕ) (bytes : List ℕ) → Step p (store p at bytes)

pub data Reach (p : Packet) : Packet → Type 0 where
  here : Reach p p
  next : {q r : Packet} → Reach p q → Step q r → Reach p r

pub packet-IsValid :
    (buf : List ℕ) (size headers : ℕ)
    → length buf ≡ size + headers
    → size + headers < size_mod
    → IsValid (packet buf size headers)
unfolding packet
packet-IsValid buf size headers h k = ground arith

Step-IsValid : {p q : Packet} → Step p q → IsValid p → IsValid q
unfolding push read skip_read skip_write erase truncate available allocate_header seek_read
    seek_header seek_write clear store
Step-IsValid (pushed p src f) v = ground (arith, length-blit p.buf p.wpos src)
Step-IsValid (was_read p n f) v = ground arith
Step-IsValid (read_skipped p n f) v = ground arith
Step-IsValid (write_skipped p n f) v = ground arith
Step-IsValid (erased p n f) v =
    ground (arith, length-blit p.buf (sub_size p.wpos n) (replicate n 0))
Step-IsValid (truncated p n r f) v = ground arith
Step-IsValid (allocated p n) v = ground arith
Step-IsValid (read_sought p b) v = ground arith
Step-IsValid (header_sought p) v = ground arith
Step-IsValid (write_sought p) v = ground arith
Step-IsValid (cleared p) v = ground arith
Step-IsValid (stored p at bytes) v = ground (arith, length-blit p.buf at bytes)

-- Whatever sequence of calls is made on a well-formed packet, with lengths that fit the address
-- space, `erase` of no more bytes than the write position, and `truncate` where the read position is
-- at most the write position and the bytes that are kept end at the headers or later, its positions
-- stay ordered and inside the buffer.
pub Reach-IsValid : {p q : Packet} → Reach p q → IsValid p → IsValid q
Reach-IsValid here v = v
Reach-IsValid (next r s) v = Step-IsValid s (Reach-IsValid r v)
