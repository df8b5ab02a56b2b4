-- ===== src/RingBuffer.antt =====
-- ringbuffer/RingBuffer.h: a byte queue in a circular buffer, which may overwrite its oldest bytes.
pub mod Window
pub mod Fifo
pub mod Overwrite
mod Examples
use launch_core.Prelude.{
  ℕ, zero, suc, ◌+◌, ◌%◌, Bool, List, [], ◌∷◌, Ret, success, error, add_size, sub_size, ltb, ◌==◌,
  not, if◌then◌else◌, length, get_or, set, take,
}

-- class RingBuffer. `buf` is what `m_buff` points to.
pub record Ring : Type 0 where
  pub head : ℕ
  pub tail : ℕ
  pub len : ℕ
  pub size : ℕ
  pub buf : List ℕ
  pub overwrite : Bool

pub ring : List ℕ → ℕ → Bool → Ring
ring buf size overwrite = record {
  head = 0;
  tail = 0;
  len = 0;
  size = size;
  buf = buf;
  overwrite = overwrite;
}

-- The first part of `push`: how many bytes are pushed, and what becomes of `m_head` and `m_len`.
pub make_room : Ring → ℕ → ℕ × Ring
make_room r len =
    if ltb r.size (add_size r.len len)
    then if r.overwrite
      then (len, record r { head = add_size len r.tail % r.size })
      else (sub_size r.size r.len, record r { len = add_size r.len (sub_size r.size r.len) })
    else (len, record r { len = add_size r.len len })

-- The loop of `push`: one byte to the tail, and on with the next.
pub push_loop : Ring → List ℕ → Ring
push_loop r [] = r
push_loop r (x ∷ xs) =
    push_loop (record r { buf = set r.buf r.tail x; tail = add_size r.tail 1 % r.size }) xs

-- push(buff, len): the number of bytes pushed; `src` holds the `len` bytes at `buff`.
pub push : Ring → List ℕ → ℕ × Ring
unfolding make_room push_loop
push r src = let (n, r') = make_room r (length src) in (n, push_loop r' (take n src))

-- push(T *obj)
pub push_obj : Ring → List ℕ → Ret × Ring
unfolding push
push_obj r obj =
    let (n, r') = push r obj in if not (length obj == n) then (error, r') else (success, r')

-- The loop of `pop`, at most `n` rounds: the bytes copied out. It stops where head meets tail.
pub pop_loop : ℕ → Ring → List ℕ × Ring
pop_loop zero r = ([], r)
pop_loop (suc n) r =
    let x = get_or r.buf r.head 0 in
    let r' = record r { head = add_size r.head 1 % r.size } in
    let more = pop_loop n r' in if r'.head == r'.tail then (x ∷ [], r') else (x ∷ more.0, more.1)

-- pop(buff, len): the bytes that it copies to `buff`; their number is what it returns.
pub pop : Ring → ℕ → List ℕ × Ring
unfolding pop_loop
pop r n = let (out, r') = pop_loop n r in (out, record r' { len = sub_size r'.len (length out) })

-- pop(T *obj), for an object of `bytes` bytes
pub pop_obj : Ring → ℕ → Ret × List ℕ × Ring
unfolding pop
pop_obj r bytes =
    let (out, r') = pop r bytes in
    if not (bytes == length out) then (error, out, r') else (success, out, r')
