-- ===== src/RingBuffer/Fifo.antt =====
-- A well-formed ring buffer is a first-in first-out queue of bytes.
use native.Mathlib.Nat.{mod-add-mod, mod-eq_of_lt, mod-lt, add-zero}
use launch_core.Prelude.{
  ℕ, zero, suc, ◌+◌, ◌-◌, ◌%◌, ◌≤◌, ◌<◌, ◌≡◌, ◌∙◌, refl, sym, ap, false, List, [], ◌∷◌, ◌++◌, arith,
  min, size_mod, length, take, drop, set, append-nil, take-min, drop-min, append_assoc, length-take,
  length-set,
}
use launch_core.RingBuffer.{Ring, make_room, push_loop, push, pop_loop, pop, add_size, sub_size}
use launch_core.RingBuffer.Window.{
  window, length-window, window_congr, window-set, drop-window, take-window, mod-ne,
}

-- The storage, whose positions can be added without overflow, and where the bytes stand in it.
pub record IsValid (r : Ring) : Type 0 where
  pub storage : r.size ≤ length r.buf
  pub small : r.size + r.size < size_mod
  pub nonempty : 0 < r.size
  pub head_in : r.head < r.size
  pub len_in : r.len ≤ r.size
  pub tail_at : r.tail ≡ (r.head + r.len) % r.size

-- The bytes in the queue, oldest first.
abbrev pub contents : Ring → List ℕ
contents r = window r.size r.buf r.head r.len

-- What the loop of `push` has done to a ring that holds `k` bytes from its head on.
pub record Wrote (r : Ring) (k : ℕ) (xs : List ℕ) (r' : Ring) : Type 0 where
  pub bytes : window r.size r'.buf r.head (k + length xs) ≡ window r.size r.buf r.head k ++ xs
  pub tail : r'.tail ≡ (r.head + (k + length xs)) % r.size
  pub head : r'.head ≡ r.head
  pub len : r'.len ≡ r.len
  pub size : r'.size ≡ r.size
  pub storage : length r'.buf ≡ length r.buf

-- One step of a position round the buffer.
step_mod :
    (a k m n : ℕ)
    → suc k ≡ m
    → 0 < n
    → n + n < size_mod
    → add_size ((a + k) % n) 1 % n ≡ (a + m) % n
step_mod a k m n e p q =
    let plain : add_size ((a + k) % n) 1 ≡ (a + k) % n + 1 = omega (arith, mod-lt (a + k) p) in
    ap (λ t. t % n) plain ∙ mod-add-mod (a + k) n 1 ∙ ap (λ t. t % n) (omega arith)

pub push_loop-Wrote :
    (xs : List ℕ) {r : Ring} (k : ℕ)
    → r.size ≤ length r.buf
    → r.size + r.size < size_mod
    → 0 < r.size
    → r.tail ≡ (r.head + k) % r.size
    → k + length xs ≤ r.size
    → Wrote r k xs (push_loop r xs)
unfolding push_loop
push_loop-Wrote [] {r} k st sm ne tl f = record {
  bytes = ap (window r.size r.buf r.head) (omega arith) ∙ sym (append-nil _);
  tail = tl ∙ ap (λ t. (r.head + t) % r.size) (omega arith);
  head = refl;
  len = refl;
  size = refl;
  storage = refl;
}
push_loop-Wrote (x ∷ xs) {r} k st sm ne tl f =
    let rest =
      push_loop-Wrote xs {r = pushed} (suc k) (rw length-set st) sm ne
        (rw tl (step_mod r.head k (suc k) r.size refl ne sm)) (omega arith) in
    record {
      bytes =
          ap (window r.size (push_loop pushed xs).buf r.head) (omega arith)
          ∙ rest.bytes
          ∙ ap (λ l. l ++ xs) here
          ∙ append_assoc (window r.size r.buf r.head k) (x ∷ []) xs;
      tail = rest.tail ∙ ap (λ t. (r.head + t) % r.size) (omega arith);
      head = rest.head;
      len = rest.len;
      size = rest.size;
      storage = rest.storage ∙ length-set r.buf r.tail x;
    }
  where
    pushed : Ring
    pushed = record r { buf = set r.buf r.tail x; tail = add_size r.tail 1 % r.size }

    here :
        window r.size (set r.buf r.tail x) r.head (suc k) ≡ window r.size r.buf r.head k ++ (x ∷ [])
    here =
        ap (λ i. window r.size (set r.buf i x) r.head (suc k)) tl
        ∙ window-set r.size r.buf r.head k (r.head + k) x (omega arith) st refl

module _ {r : Ring} (v : IsValid r) where
  -- The loop of `push`, when `m_len` was raised by as many bytes as it writes.
  append_loop :
      (xs : List ℕ) (m : ℕ)
      → r.len + length xs ≡ m
      → m ≤ r.size
      → let q = push_loop (record r { len = m }) xs in (contents q ≡ contents r ++ xs) × IsValid q
  append_loop xs m e f =
      let r' : Ring = record r { len = m } in
      let q : Ring = push_loop r' xs in
      let w =
        push_loop-Wrote xs {r = r'} r.len v.storage v.small v.nonempty v.tail_at (omega arith) in
      let shown : contents q ≡ window r.size q.buf r.head (r.len + length xs) =
        cc (w.size, w.head, w.len, e) in
      (
        shown ∙ w.bytes,
        record {
          storage = omega (arith, w.storage, w.size, v.storage);
          small = rw w.size v.small;
          nonempty = rw w.size v.nonempty;
          head_in = rw (w.size, w.head) v.head_in;
          len_in = rw (w.size, w.len) f;
          tail_at = cc (w.size, w.head, w.len, w.tail, e);
        },
      )

  make_room_lem :
      (n : ℕ)
      → r.overwrite ≡ false
      → n + r.size < size_mod
      → make_room r n ≡ (min n (r.size - r.len), record r { len = r.len + min n (r.size - r.len) })
  unfolding make_room
  make_room_lem n o f = ground arith

  -- A ring that does not overwrite takes as many bytes as it has room for, appends exactly those,
  -- in order, returns their number and stays well formed.
  pub push-contents :
      (src : List ℕ)
      → r.overwrite ≡ false
      → length src + r.size < size_mod
      → let (n, q) = push r src in
        (n ≡ min (length src) (r.size - r.len))
        × (contents q ≡ contents r ++ take n src)
        × IsValid q
  unfolding push
  push-contents src o f =
      let n = min (length src) (r.size - r.len) in
      let done =
        append_loop (take n src) (r.len + n) (omega (arith, length-take n src)) (omega arith) in
      rw (make_room_lem (length src) o f) (refl, done.0, done.1)

pub pop_loop_lem :
    (n k m : ℕ) (r : Ring)
    → r.size + r.size < size_mod
    → r.head < r.size
    → 0 < k
    → k ≤ r.size
    → r.tail ≡ (r.head + k) % r.size
    → m ≡ min n k
    → pop_loop n r ≡ (window r.size r.buf r.head m, record r { head = (r.head + m) % r.size })
unfolding pop_loop
pop_loop_lem zero k zero r sm hd po le tl e = ground (arith, add-zero r.head, mod-eq_of_lt hd)
pop_loop_lem zero k (suc m) r sm hd po le tl e = absurd (omega arith)
pop_loop_lem (suc n) zero m r sm hd po le tl e = absurd (omega arith)
pop_loop_lem (suc n) (suc k) zero r sm hd po le tl e = absurd (omega arith)
pop_loop_lem (suc n) (suc zero) (suc zero) r sm hd po le tl e =
    let plain : add_size r.head 1 ≡ r.head + 1 = omega arith in ground (arith, mod-eq_of_lt hd)
pop_loop_lem (suc n) (suc zero) (suc (suc m)) r sm hd po le tl e = absurd (omega arith)
pop_loop_lem (suc n) (suc (suc k)) (suc m) r sm hd po le tl e =
    let plain : add_size r.head 1 ≡ r.head + 1 = omega arith in
    let h = (r.head + 1) % r.size in
    let same : (h + suc k) % r.size ≡ (r.head + suc (suc k)) % r.size =
      mod-add-mod (r.head + 1) r.size (suc k) ∙ ap (λ t. t % r.size) (omega arith) in
    let end : (h + m) % r.size ≡ (r.head + suc m) % r.size =
      mod-add-mod (r.head + 1) r.size m ∙ ap (λ t. t % r.size) (omega arith) in
    let shift : h % r.size ≡ suc r.head % r.size =
      mod-eq_of_lt (mod-lt (r.head + 1) (omega arith)) ∙ ap (λ t. t % r.size) (omega arith) in
    ground (
      arith,
      mod-eq_of_lt hd,
      mod-ne r.size (r.head + 1) (suc k) (omega arith) (omega arith),
      mod-add-mod (r.head + 1) r.size (suc k),
      window_congr r.size r.buf h (suc r.head) m shift,
      pop_loop_lem n (suc k) m (record r { head = h }) sm (mod-lt (r.head + 1) (omega arith))
          (omega arith) (omega arith) (tl ∙ sym same) (omega arith),
    )

module _ {r : Ring} (v : IsValid r) where
  -- A ring that holds bytes gives the oldest, as many as are asked for and there, in order, and
  -- keeps the rest; it stays well formed.
  pub pop-contents :
      (n : ℕ)
      → 0 < r.len
      → let (out, q) = pop r n in
        (out ≡ take n (contents r)) × (contents q ≡ drop n (contents r)) × IsValid q
  unfolding pop
  pop-contents n h =
      let m = min n r.len in
      let all = length-window r.size r.buf r.head r.len in
      let loop = pop_loop_lem n r.len m r v.small v.head_in h v.len_in v.tail_at refl in
      let left : sub_size r.len m ≡ r.len - m = omega (arith, v.small, v.len_in) in
      rw (loop, length-window, left)
        (
          sym (take-window r.size r.buf r.head m r.len (omega arith))
              ∙ take-min n m (contents r) (omega arith),
          window_congr r.size r.buf ((r.head + m) % r.size) (r.head + m) (r.len - m)
                (mod-eq_of_lt (mod-lt (r.head + m) v.nonempty))
              ∙ sym (
                  drop-window r.size r.buf r.head m (r.len - m) r.len (r.head + m) (omega arith)
                    refl)
              ∙ drop-min n m (contents r) (omega arith),
          record {
            storage = v.storage;
            small = v.small;
            nonempty = v.nonempty;
            head_in = mod-lt (r.head + m) v.nonempty;
            len_in = omega (arith, v.len_in);
            tail_at =
                v.tail_at
                ∙ ap (λ t. t % r.size) (omega arith)
                ∙ sym (mod-add-mod (r.head + m) r.size (r.len - m));
          },
        )
