-- ===== src/RingBuffer/Overwrite.antt =====
-- A ring buffer at its limits: overwriting, and reading when nothing is there.
use native.Mathlib.Nat.{mod-add-mod, mod-eq_of_lt, mod-lt, add-mod_right}
use launch_core.Prelude.{
  ℕ, ◌+◌, ◌-◌, ◌%◌, ◌≤◌, ◌<◌, ◌≡◌, ◌∙◌, refl, sym, ap, ap₂, true, List, ◌++◌, arith, min, size_mod,
  length, drop, take-length,
}
use launch_core.RingBuffer.{Ring, make_room, push_loop, push, pop, add_size}
use launch_core.RingBuffer.Window.{window, length-window, window_congr, drop-window, mod-ne}
use launch_core.RingBuffer.Fifo.{IsValid, contents, Wrote, push_loop-Wrote, pop_loop_lem}

module _ {r : Ring} (v : IsValid r) where
  -- `pop` of an empty buffer does not stop: it returns what the buffer held before, up to a whole
  -- round, and takes that many from the length 0, which wraps.
  pub pop_empty :
      (n : ℕ)
      → r.len ≡ 0
      → 0 < n
      → let (out, q) = pop r n in
        (out ≡ window r.size r.buf r.head (min n r.size))
        × (0 < length out)
        × (q.len + length out ≡ size_mod)
  unfolding pop
  pop_empty n e h =
      let m = min n r.size in
      let round : r.tail ≡ (r.head + r.size) % r.size =
        v.tail_at ∙ ap (λ t. t % r.size) (omega arith) ∙ sym (add-mod_right r.head r.size) in
      let loop = pop_loop_lem n r.size m r v.small v.head_in v.nonempty (omega arith) round refl in
      rw (loop, length-window)
        (
          refl,
          omega (arith, v.nonempty, length-window r.size r.buf r.head m),
          omega (arith, v.nonempty, v.small, e, length-window r.size r.buf r.head m),
        )

  make_room_over :
      (n : ℕ)
      → r.overwrite ≡ true
      → r.size < r.len + n
      → n ≤ r.size
      → make_room r n ≡ (n, record r { head = (n + r.tail) % r.size })
  unfolding make_room
  make_room_over n o h f =
      let plain : add_size n r.tail ≡ n + r.tail =
        omega (arith, v.small, v.tail_at, mod-lt (r.head + r.len) v.nonempty) in
      ground arith

  -- The ring after the first part of an overwriting `push`: the head moves to where the tail
  -- will come to stand.
  abbrev moved : ℕ → Ring
  moved n = record r { head = (n + r.tail) % r.size }

  moved-Wrote :
      (src : List ℕ)
      → length src ≤ r.size
      → Wrote (moved (length src)) (r.size - length src) src (push_loop (moved (length src)) src)
  moved-Wrote src f =
      let n = length src in
      push_loop-Wrote src {r = moved n} (r.size - n) v.storage v.small v.nonempty
        (sym (
          mod-add-mod (n + r.tail) r.size (r.size - n)
          ∙ ap (λ t. t % r.size) (omega arith)
          ∙ add-mod_right r.tail r.size
          ∙ mod-eq_of_lt (omega (arith, v.tail_at, mod-lt (r.head + r.len) v.nonempty))))
        (omega arith)

  push-moved :
      (src : List ℕ)
      → r.overwrite ≡ true
      → r.size < r.len + length src
      → length src ≤ r.size
      → push r src ≡ (length src, push_loop (moved (length src)) src)
  unfolding push
  push-moved src o h f = rw (make_room_over (length src) o h f, take-length)

  head-tail_moved :
      (src : List ℕ)
      → length src ≤ r.size
      → (push_loop (moved (length src)) src).head ≡ (push_loop (moved (length src)) src).tail
  head-tail_moved src f =
      let n = length src in
      let w = moved-Wrote src f in
      w.head
      ∙ sym (mod-eq_of_lt (mod-lt (n + r.tail) v.nonempty))
      ∙ sym (add-mod_right ((n + r.tail) % r.size) r.size)
      ∙ ap (λ t. ((n + r.tail) % r.size + t) % r.size) (omega arith)
      ∙ sym w.tail

  moved_start : (n : ℕ) → r.len ≡ r.size → (n + r.tail) % r.size % r.size ≡ (r.head + n) % r.size
  moved_start n full =
      let back : r.tail ≡ r.head =
        v.tail_at
        ∙ ap (λ t. (r.head + t) % r.size) full
        ∙ add-mod_right r.head r.size
        ∙ mod-eq_of_lt v.head_in in
      mod-eq_of_lt (mod-lt (n + r.tail) v.nonempty) ∙ ap (λ t. t % r.size) (omega arith)

  moved-contents :
      (src : List ℕ)
      → r.len ≡ r.size
      → length src ≤ r.size
      → contents (push_loop (moved (length src)) src) ≡ drop (length src) (contents r) ++ src
  moved-contents src full f =
      let n = length src in
      let w = moved-Wrote src f in
      let q : Ring = push_loop (moved n) src in
      let count : q.len ≡ r.size - n + n = omega (arith, w.len, full) in
      let shown : contents q ≡ window r.size q.buf (moved n).head (r.size - n + n) =
        cc (w.size, w.head, count) in
      shown
      ∙ w.bytes
      ∙ ap (λ l. l ++ src)
          (window_congr r.size r.buf (moved n).head (r.head + n) (r.size - n) (moved_start n full)
            ∙ sym (
                drop-window r.size r.buf r.head n (r.size - n) r.len (r.head + n) (omega arith)
                  refl))

  moved-IsValid :
      (src : List ℕ)
      → r.len ≡ r.size
      → length src ≤ r.size
      → IsValid (push_loop (moved (length src)) src)
  moved-IsValid src full f =
      let w = moved-Wrote src f in
      let q : Ring = push_loop (moved (length src)) src in
      let head_in : q.head < r.size = rw w.head (mod-lt (length src + r.tail) v.nonempty) in
      let count : r.size ≡ q.len = omega (arith, w.len, full) in
      record {
        storage = omega (arith, w.storage, w.size, v.storage);
        small = rw w.size v.small;
        nonempty = rw w.size v.nonempty;
        head_in = rw w.size head_in;
        len_in = omega (arith, w.len, w.size, v.len_in);
        tail_at =
            sym (head-tail_moved src f)
            ∙ sym (add-mod_right q.head r.size ∙ mod-eq_of_lt head_in)
            ∙ ap₂ (λ t u. (q.head + t) % u) count (sym w.size);
      }

  -- A full buffer that overwrites drops as many of its oldest bytes as are pushed, appends all of
  -- these, and stays full and well formed.
  push_full :
      (src : List ℕ)
      → r.overwrite ≡ true
      → r.len ≡ r.size
      → 0 < length src
      → length src ≤ r.size
      → let (n, q) = push r src in
        (n ≡ length src) × (contents q ≡ drop (length src) (contents r) ++ src) × IsValid q
  push_full src o full h f =
      rw (push-moved src o (omega arith) f)
        (refl, moved-contents src full f, moved-IsValid src full f)

  -- If a buffer that overwrites is not full and is given more than it has room for, then `m_len`
  -- keeps its old value though head meets tail as in a full buffer: the buffer is no longer
  -- well formed.
  push_partial :
      (src : List ℕ)
      → r.overwrite ≡ true
      → r.len < r.size
      → r.size < r.len + length src
      → length src ≤ r.size
      → let (n, q) = push r src in
        (n ≡ length src) × (q.len ≡ r.len) × (q.head ≡ q.tail) × (¬ IsValid q)
  push_partial src o part h f =
      let w = moved-Wrote src f in
      let even = head-tail_moved src f in
      let q : Ring = push_loop (moved (length src)) src in
      let head_in : q.head < r.size = rw w.head (mod-lt (length src + r.tail) v.nonempty) in
      rw (push-moved src o h f) (
        refl,
        w.len,
        even,
        λ bad. mod-ne r.size q.head r.len (omega arith) part (
            mod-eq_of_lt head_in ∙ even ∙ bad.tail_at ∙ ap₂ (λ t u. (q.head + t) % u) w.len w.size),
      )
