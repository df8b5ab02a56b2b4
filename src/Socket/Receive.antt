-- ===== src/Socket/Receive.antt =====
-- IPv4UDPSocket::receive: the buffer that a packet is given, and the copy into it.
use launch_core.Prelude.{
  nonnull, ℕ, suc, ◌-◌, ◌≤◌, ◌<◌, ◌≡◌, ◌≢◌, inl, inr, ◌∙◌, refl, sym, ap, true, false, ◌||◌, Option,
  none, some, [], ◌∷◌, ◌++◌, arith, ◌==◌, length, length-append, take, blit, length-blit,
  slice-blit_self, length-slice, Bool-cases, Ret, success, sub_size,
}
use launch_core.Queue.Heap.{Ptr, null}
use launch_core.Queue.Chain.{Cells}
use launch_core.Pool.{alloc, free}
use launch_core.Pool.State.{IsPool, Yields-run, holds, Once, holds_snoc, Once-init}
use launch_core.Pool.Free.{free-IsPool, alloc-IsPool, alloc_none}
use launch_core.AllocQueue
use launch_core.AllocQueue.Contents.{Gives-run, Holds, capacity, peek_oldest, pop-Holds}
use launch_core.Packet
use launch_core.Packet.{Packet}
use launch_core.Packet.Invariant.{IsValid}
use launch_core.Packet.Stream.{unread, IsReadable}
use launch_core.Udp.{Info}
use launch_core.Socket.{Stored, Socket, mtu, drop_oldest, take_buffer, fill, put, source_octets}
use launch_core.Socket.Inbox.{IsSocket, inbox, holds-left, self_or}

-- A buffer `d` has been taken for a packet, beside those of `cs`.
pub record IsTaken (s : Socket) (n : ℕ) (cs : Cells Ptr) (d : Ptr) : Type 0 where
  pub queued : Holds s.rx cs
  pub pooled : IsPool s.nodes s.pool (λ a. (a == d) || holds a cs) (suc (length cs))
  pub once : Once cs
  pub fresh : holds d cs ≡ false
  pub there : d ≢ null
  pub room : length cs < n
  pub queue_size : capacity s.rx ≡ n
  pub pool_size : length s.pool.descs ≡ n

-- What the calls before the copy leave alone.
abbrev pub Same : Socket → Socket → Type 0
Same s s' = (s'.packets ≡ s.packets) × (s'.waiting ≡ s.waiting)

abbrev pub Buffers : Option (Ptr × Socket) → (Ptr → Socket → Type 0) → Type 0
Buffers none P = ⊥
Buffers (some (d, s)) P = P d s

pub Buffers-run :
    (o : Option (Ptr × Socket)) (P : Ptr → Socket → Type 0)
    → Buffers o P
    → (d : Ptr) × (s : Socket) × (o ≡ some (d, s)) × P d s
Buffers-run none P b = absurd b
Buffers-run (some (d, s)) P b = (d, s, refl, b)

-- With a buffer free, that is taken.
pub take_free :
    {s : Socket} {n : ℕ} {cs : Cells Ptr}
    → IsSocket s n cs
    → length cs < n
    → Buffers (take_buffer s) (λ d s'. IsTaken s' n cs d × Same s s')
unfolding take_buffer
take_free {s} {n} {cs} i room =
    let ((d, pool), nodes, run, (ne, le, fresh, pooled, len)) =
      Yields-run (alloc s.pool s.nodes) _
        (alloc-IsPool i.pooled (omega (arith, room, i.pool_size))) in
    rw (run, nonnull d ne)
      (
        record {
          queued = i.queued;
          pooled = pooled;
          once = i.once;
          fresh = fresh;
          there = ne;
          room = room;
          queue_size = i.queue_size;
          pool_size = len ∙ i.pool_size;
        },
        (refl, refl),
      )

-- With none free, the oldest packet is dropped and a buffer is taken.
pub take_oldest :
    {s : Socket} {n : ℕ} (cs : Cells Ptr) (p e : Ptr)
    → IsSocket s n (cs ++ ((p, e) ∷ []))
    → length (cs ++ ((p, e) ∷ [])) ≡ n
    → Buffers (take_buffer s) (λ d s'. IsTaken s' n cs d × Same s s')
unfolding take_buffer drop_oldest
take_oldest {s} {n} cs p e i full =
    let old : Cells Ptr = cs ++ ((p, e) ∷ []) in
    let none_left = alloc_none i.pooled (full ∙ sym i.pool_size) in
    let (peeked, _) = peek_oldest cs p e i.queued in
    let (_, rx, run, (rx_holds, cap, still)) =
      Gives-run (AllocQueue.pop s.rx) _ (pop-Holds cs p e i.queued) in
    let size = length-append cs ((p, e) ∷ []) in
    let ((ok, pool), nodes, run', (_, pooled, len)) = Yields-run (free s.pool e s.nodes) _ (
      free-IsPool i.pooled e (length cs) (λ a. holds a cs)
        (holds_snoc e cs p e ∙ self_or e (holds e cs)) (omega (arith, size))
        (λ a. holds-left cs p e a i.once)) in
    let ((d, pool'), nodes', run'', (ne, le, fresh, pooled', len')) =
      Yields-run (alloc pool nodes) _
        (alloc-IsPool pooled (omega (arith, size, full, len, i.pool_size))) in
    rw (none_left, peeked, run, still, run', run'')
      (
        record {
          queued = rx_holds;
          pooled = pooled';
          once = (Once-init cs p e i.once).0;
          fresh = fresh;
          there = ne;
          room = omega (arith, size, full);
          queue_size = cap ∙ i.queue_size;
          pool_size = len' ∙ len ∙ i.pool_size;
        },
        (refl, refl),
      )

-- Reading all that is there succeeds.
read_all :
    (p : Packet)
    → IsValid p
    → IsReadable p
    → (Packet.available p ≡ p.wpos - p.rpos)
      × (Packet.read p (Packet.available p) ≡ (success, record p { rpos = p.wpos }, unread p))
unfolding Packet.read Packet.available
read_all p v le =
    let size : sub_size p.wpos p.rpos ≡ p.wpos - p.rpos = omega (arith, v.fits, v.small) in
    (size, rw size (ground (arith, v.fits, v.small)))

inbox-put :
    (s : Socket) (d : Ptr) (v : Stored) (cs : Cells Ptr)
    → holds d cs ≡ false
    → inbox (record s { packets = put s.packets d v }) cs ≡ inbox s cs
inbox-put s d v [] out = refl
inbox-put s d v ((q, e) ∷ cs) out =
    let other : (e == d) ≡ false = ground arith in
    rw other (ap (λ l. s.packets e ∷ l) (inbox-put s d v cs (ground arith)))

-- The state after the copy.
abbrev pub Filled : Socket → ℕ → Cells Ptr → Packet → Info → Ret × Packet → Socket → Type 0
Filled s n cs p info (r, p') s' =
    (r ≡ success)
    × (p' ≡ record p { rpos = p.wpos })
    × (s'.waiting ≡ s.waiting)
    × ((q : Ptr) × (d : Ptr) × IsSocket s' n ((q, d) ∷ cs)
        × (inbox s' cs ≡ inbox s cs)
        × (let v = s'.packets d in
            (v.len ≡ length (unread p))
            × (take v.len v.buff ≡ unread p)
            × (v.ip ≡ source_octets info.src_addr)
            × (v.port ≡ info.src_port)))

abbrev pub Copies : Option ((Ret × Packet) × Socket) → (Ret × Packet → Socket → Type 0) → Type 0
Copies none P = ⊥
Copies (some (r, s)) P = P r s

pub Copies-run :
    (o : Option ((Ret × Packet) × Socket)) (P : Ret × Packet → Socket → Type 0)
    → Copies o P
    → (r : Ret × Packet) × (s : Socket) × (o ≡ some (r, s)) × P r s
Copies-run none P b = absurd b
Copies-run (some (r, s)) P b = (r, s, refl, b)

-- The taken buffer is put on the queue and filled.
pub fill-Filled :
    {s : Socket} {n : ℕ} (cs : Cells Ptr) (d q : Ptr) (rx : AllocQueue.AllocQueue Ptr) (p : Packet)
    (info : Info)
    → IsTaken s n cs d
    → Holds rx ((q, d) ∷ cs)
    → capacity rx ≡ n
    → ((a : Ptr) → length (s.packets a).buff ≡ mtu)
    → IsValid p
    → IsReadable p
    → Packet.available p ≤ mtu
    → Copies (fill d p info (record s { rx = rx })) (λ r s'. Filled s n cs p info r s')
unfolding fill
fill-Filled {s} {n} cs d q rx p info k h cap bufs v le small =
    let (size, all) = read_all p v le in
    let bytes = unread p in
    let count : length bytes ≡ Packet.available p =
      length-slice p.buf p.rpos (p.wpos - p.rpos) (omega (arith, v.storage, v.fits, le))
      ∙ sym size in
    let new : Stored = record {
      buff = blit (s.packets d).buff 0 bytes;
      len = Packet.available p;
      ip = source_octets info.src_addr;
      port = info.src_port;
    } in
    let self : (d == d) ≡ true = ground arith in
    rw (all, nonnull d k.there)
      (
        refl,
        refl,
        refl,
        (
          q,
          d,
          record {
            queued = h;
            pooled = k.pooled;
            once = (k.fresh, k.once);
            queue_size = cap;
            pool_size = k.pool_size;
            buffers = λ a. elim (Bool-cases (a == d)) [
              | inl o ↦ rw o (length-blit (s.packets d).buff 0 bytes ∙ bufs d)
              | inr o ↦ rw o (bufs a)
            ];
          },
          inbox-put s d new cs k.fresh,
          rw self (
            sym count,
            ap (λ m. take m (blit (s.packets d).buff 0 bytes)) (sym count)
                ∙ slice-blit_self (s.packets d).buff 0 bytes (omega (arith, count, small, bufs d)),
            refl,
            refl,
          ),
        ),
      )
