-- ===== src/Packet.antt =====
-- net/packet/Packet.h: a packet buffer with room for headers in front of the payload, a write
-- position, a read position and the position of the header allocated last.
pub mod Invariant
pub mod Spec
pub mod Stream
pub mod Headers
mod Examples
use launch_core.Prelude.{
  ℕ, ◌+◌, Bool, true, false, Option, none, some, List, Ret, success, error, size_mod, add_size,
  sub_size, ltb, if◌then◌else◌, length, blit, slice, replicate,
}

-- class Packet. `buf` is what `m_buff` points to.
pub record Packet : Type 0 where
  pub buf : List ℕ
  pub size : ℕ
  pub header_size : ℕ
  pub wpos : ℕ
  pub rpos : ℕ
  pub hpos : ℕ

-- alloc::Packet: the buffer has room for the payload and the headers, whatever it held before.
unfoldable pub packet : List ℕ → ℕ → ℕ → Packet
packet buf size header_size = record {
  buf = buf;
  size = add_size size header_size;
  header_size = header_size;
  wpos = header_size;
  rpos = header_size;
  hpos = header_size;
}

-- push(buff, len); `src` holds the `len` bytes at `buff`.
unfoldable pub push : Packet → List ℕ → Ret × Packet
push p src =
    if ltb p.size (add_size (length src) p.wpos)
    then (error, p)
    else (success, record p { buf = blit p.buf p.wpos src; wpos = add_size p.wpos (length src) })

-- read(buff, len): the bytes copied to `buff` are the last part of the result.
unfoldable pub read : Packet → ℕ → Ret × Packet × List ℕ
read p len =
    if ltb p.wpos (add_size len p.rpos)
    then (error, p, List.[])
    else (success, record p { rpos = add_size p.rpos len }, slice p.buf p.rpos len)

-- write_ptr, read_ptr: the offset in `m_buff` of an object of `bytes` bytes, or NULL.
unfoldable pub write_ptr : Packet → ℕ → Option ℕ
write_ptr p bytes = if ltb p.size (add_size p.wpos bytes) then none else some p.wpos

unfoldable pub read_ptr : Packet → ℕ → Option ℕ
read_ptr p bytes = if ltb p.wpos (add_size p.rpos bytes) then none else some p.rpos

unfoldable pub skip_read : Packet → ℕ → Ret × Packet
skip_read p len =
    if ltb p.wpos (add_size p.rpos len)
    then (error, p)
    else (success, record p { rpos = add_size p.rpos len })

unfoldable pub skip_write : Packet → ℕ → Ret × Packet
skip_write p len =
    if ltb p.size (add_size len p.wpos)
    then (error, p)
    else (success, record p { wpos = add_size p.wpos len })

-- erase(len): `m_wpos - len` wraps when more is erased than was written.
unfoldable pub erase : Packet → ℕ → Ret × Packet
erase p len = if ltb (sub_size p.wpos len) p.header_size then (error, p) else (
  success,
  record p { wpos = sub_size p.wpos len; buf = blit p.buf (sub_size p.wpos len) (replicate len 0) },
)

unfoldable pub available : Packet → ℕ
available p = sub_size p.wpos p.rpos

unfoldable pub truncate : Packet → ℕ → Ret × Packet
unfolding available
truncate p size =
    if ltb (available p) size
    then (error, p)
    else (success, record p { wpos = sub_size p.wpos (sub_size (available p) size) })

-- allocate_header: the offset of the new header.
unfoldable pub allocate_header : Packet → ℕ → Option ℕ × Packet
allocate_header p bytes =
    if ltb p.hpos bytes
    then (none, p)
    else (some (sub_size p.hpos bytes), record p { hpos = sub_size p.hpos bytes })

unfoldable pub header_ptr : Packet → ℕ → Option ℕ
header_ptr p bytes = if ltb p.header_size bytes then none else some p.hpos

unfoldable pub seek_read : Packet → Bool → Packet
seek_read p include_headers =
    if include_headers then record p { rpos = p.hpos } else record p { rpos = p.header_size }

unfoldable pub seek_header : Packet → Packet
seek_header p = record p { hpos = p.header_size }

unfoldable pub seek_write : Packet → Packet
seek_write p = record p { wpos = p.header_size }

unfoldable pub clear : Packet → Packet
clear p = record p { wpos = p.header_size; rpos = p.header_size; hpos = p.header_size }

-- size(), header_size(), capacity(), raw()
unfoldable pub payload_size : Packet → ℕ
payload_size p = sub_size p.wpos p.header_size

unfoldable pub used_header_size : Packet → ℕ
used_header_size p = sub_size p.header_size p.hpos

unfoldable pub capacity : Packet → ℕ
capacity p = sub_size p.size p.header_size

unfoldable pub raw : Packet → ℕ
raw p = p.hpos

-- A store through a pointer into the buffer, as the layers write their headers.
unfoldable pub store : Packet → ℕ → List ℕ → Packet
store p at bytes = record p { buf = blit p.buf at bytes }
