-- ===== src/Socket/Deliver.antt =====
-- What a socket does with a packet that the router delivers to it.
use mathlib.Core.Path.{subst}
use launch_core.Prelude.{
  ℕ, ◌≤◌, ◌<◌, ◌≡◌, ◌⊎◌, inl, inr, ◌∙◌, refl, sym, ap, false, Option, none, some, [], ◌∷◌, ◌++◌,
  arith, ltb, length, take, lt_or_eq, le_test, get_elem?, Ret, success,
}
use launch_core.Queue.Heap.{Ptr}
use launch_core.Queue.Chain.{Cells, snoc-cases}
use launch_core.AllocQueue
use launch_core.AllocQueue.Contents.{Gives-run, push-Holds}
use launch_core.Packet
use launch_core.Packet.{Packet}
use launch_core.Packet.Invariant.{IsValid}
use launch_core.Packet.Stream.{unread, IsReadable}
use launch_core.Udp.{Info}
use launch_core.Sched.{Sched, Task, sched_wake}
use launch_core.Sched.Moves.{Ends-run, IsSched}
use launch_core.Sched.Calls.{Woken, sched_wake-IsSched}
use launch_core.Socket.{
  Stored, Socket, mtu, take_buffer, fill, source_octets, wake_waiting, wrong_address, receive,
}
use launch_core.Socket.Inbox.{IsSocket, inbox, inbox_snoc}
use launch_core.Socket.Receive.{
  IsTaken, Same, Buffers, Buffers-run, take_free, take_oldest, fill-Filled, Copies-run,
}

-- A task that waits is one of the table.
abbrev pub Knows : Option ℕ → Sched → Type 0
Knows none t = Unit {0}
Knows (some tid) t = (u : Task) × (get_elem? t.tasks tid ≡ some u)

-- The task that waits, if one does, has been woken.
abbrev pub Wakes : Option ℕ → (t : Sched) → IsSched t → (t' : Sched) → IsSched t' → Type 0
Wakes none t i t' i' = t' ≡ t
Wakes (some tid) t i t' i' = (u : Task) × (get_elem? t.tasks tid ≡ some u) × Woken i tid u t' i'

wake_waiting_lem :
    (w : Option ℕ) (t : Sched) (i : IsSched t)
    → Knows w t
    → (t' : Sched) × (wake_waiting w t ≡ some t') × ((i' : IsSched t') × Wakes w t i t' i')
unfolding wake_waiting
wake_waiting_lem none t i k = (t, refl, (i, refl))
wake_waiting_lem (some tid) t i (u, at) =
    let (_, t', run, ((i', woken), _)) =
      Ends-run (sched_wake tid t) _ (sched_wake-IsSched i tid u at) in
    (t', rw run refl, (i', (u, at, woken)))

-- The packets of `ds` are those of `cs`, less the oldest where the queue was full.
abbrev pub Kept : Socket → ℕ → Cells Ptr → Socket → Cells Ptr → Type 0
Kept s n cs s' ds =
    ((length cs < n) × (inbox s' ds ≡ inbox s cs))
    ⊎ ((length cs ≡ n) × ((v : Stored) × (inbox s cs ≡ inbox s' ds ++ (v ∷ []))))

-- A call that ends without a fault, with what holds then.
abbrev pub Delivers :
    Option ((Ret × Packet) × Socket × Sched) → (Ret × Packet → Socket → Sched → Type 0) → Type 0
Delivers none P = ⊥
Delivers (some (r, s, t)) P = P r s t

pub Delivers-run :
    (o : Option ((Ret × Packet) × Socket × Sched)) (P : Ret × Packet → Socket → Sched → Type 0)
    → Delivers o P
    → (r : Ret × Packet) × (s : Socket) × (t : Sched) × (o ≡ some (r, s, t)) × P r s t
Delivers-run none P b = absurd b
Delivers-run (some (r, s, t)) P b = (r, s, t, refl, b)

-- Buffers that are the same hold the same packets.
inbox-same : (s s' : Socket) (cs : Cells Ptr) → s'.packets ≡ s.packets → inbox s' cs ≡ inbox s cs
inbox-same s s' [] e = refl
inbox-same s s' ((p, d) ∷ cs) e = let rest = inbox-same s s' cs e in cc

-- A buffer for the packet, and the cells that stay.
room_made :
    {s : Socket} {n : ℕ} (cs : Cells Ptr)
    → IsSocket s n cs
    → 0 < n
    → Buffers
        (take_buffer s)
        (λ d s'. Same s s' × ((ds : Cells Ptr) × IsTaken s' n ds d × Kept s n cs s' ds))
room_made {s} {n} cs i pos =
    let le : length cs ≤ n = omega (arith, i.pooled.total, i.pool_size) in
    elim (lt_or_eq (length cs) n le) [
      | inl room ↦
          let (d, s', run, (k, same)) = Buffers-run (take_buffer s) _ (take_free i room) in
          rw run (same, (cs, k, inl (room, inbox-same s s' cs same.0)))
      | inr full ↦ elim (snoc-cases cs) [
        | inl e ↦ absurd (omega (arith, pos, full, ap length e))
        | inr (ds, p, e, eq) ↦
            let here = subst (IsSocket s n) eq i in
            let (d, s', run, (k, same)) =
              Buffers-run (take_buffer s) _ (take_oldest ds p e here (sym (ap length eq) ∙ full)) in
            let packets : inbox s cs ≡ inbox s' ds ++ (s.packets e ∷ []) =
              ap (inbox s) eq
              ∙ inbox_snoc s ds p e
              ∙ ap (λ l. l ++ (s.packets e ∷ [])) (sym (inbox-same s s' ds same.0)) in
            rw run (same, (ds, k, inr (full, (s.packets e, packets))))
      ]
    ]

-- The packet at `d` has the bytes that could be read of `p`, and its source.
abbrev pub IsCopy : Packet → Info → Stored → Type 0
IsCopy p info v =
    (v.len ≡ length (unread p))
    × (take v.len v.buff ≡ unread p)
    × (v.ip ≡ source_octets info.src_addr)
    × (v.port ≡ info.src_port)

abbrev pub Delivered :
    Socket
    → ℕ
    → Cells Ptr
    → Packet
    → Info
    → (t : Sched) → IsSched t
    → Ret × Packet
    → Socket
    → Sched
    → Type 0
Delivered s n cs p info t it (r, p') s' t' =
    (r ≡ success)
    × (p' ≡ record p { rpos = p.wpos })
    × ((it' : IsSched t') × Wakes s.waiting t it t' it')
    × (s'.waiting ≡ s.waiting)
    × ((q : Ptr) × (d : Ptr) × (ds : Cells Ptr) × IsSocket s' n ((q, d) ∷ ds)
        × Kept s n cs s' ds
        × IsCopy p info (s'.packets d))

-- The steps of a `receive` that is not refused.
receive-run :
    (p : Packet) (info : Info) (s s1 s2 : Socket) (t t' : Sched) (d q : Ptr)
    (rx : AllocQueue.AllocQueue Ptr) (r : Ret × Packet)
    → ltb mtu (Packet.available p) ≡ false
    → wrong_address s info ≡ false
    → take_buffer s ≡ some (d, s1)
    → AllocQueue.push d s1.rx ≡ some (q, rx)
    → fill d p info (record s1 { rx = rx }) ≡ some (r, s2)
    → r.0 ≡ success
    → s2.waiting ≡ s.waiting
    → wake_waiting s.waiting t ≡ some t'
    → receive p info s t ≡ some (r, s2, t')
unfolding receive
receive-run p info s s1 s2 t t' d q rx (r, p') e1 e2 e3 e4 e5 e6 e7 e8 =
    rw (e1, e2, e3, e4, e5, e6, e7, e8) refl

Kept-step :
    (s : Socket) (n : ℕ) (cs : Cells Ptr) (s' s'' : Socket) (ds : Cells Ptr)
    → inbox s'' ds ≡ inbox s' ds
    → Kept s n cs s' ds
    → Kept s n cs s'' ds
Kept-step s n cs s' s'' ds e (inl (room, same)) = inl (room, e ∙ same)
Kept-step s n cs s' s'' ds e (inr (full, (v, old))) =
    inr (full, (v, old ∙ ap (λ l. l ++ (v ∷ [])) (sym e)))

-- `receive` of a packet that fits and is for the socket's address, on a well-formed socket of at
-- least one buffer, succeeds. It reads the packet to its end; a copy of its bytes, with the source
-- as `source_octets` gives it, becomes the newest of the socket's packets; the others stay, but the
-- oldest is dropped if the queue was full. The task that waits is woken, and socket and scheduler
-- stay well formed.
pub receive-inbox :
    {s : Socket} {n : ℕ} {t : Sched} {p : Packet} (cs : Cells Ptr) (info : Info)
    → IsSocket s n cs
    → 0 < n
    → (it : IsSched t) → Knows s.waiting t
    → IsValid p
    → IsReadable p
    → Packet.available p ≤ mtu
    → wrong_address s info ≡ false
    → Delivers (receive p info s t) (Delivered s n cs p info t it)
receive-inbox {s} {n} {t} {p} cs info i pos it knows v le small right =
    let (d, s1, run1, ((packets, waiting), (ds, k, kept))) =
      Buffers-run (take_buffer s) _ (room_made cs i pos) in
    let (q, rx, run2, (_, _, queued, cap)) =
      Gives-run (AllocQueue.push d s1.rx) _
        (push-Holds k.queued d (omega (arith, k.room, k.queue_size))) in
    let (r, s2, run3, (ok, end, still, rest)) =
      Copies-run (fill d p info (record s1 { rx = rx })) _ (
        fill-Filled ds d q rx p info k queued (cap ∙ k.queue_size)
          (λ a. ap length (ap (λ m. (m a).buff) packets) ∙ i.buffers a) v le small) in
    let (q', d', queue, inboxes, copied) = rest in
    let same : s2.waiting ≡ s.waiting = still ∙ waiting in
    let (t', run4, woken) = wake_waiting_lem s.waiting t it knows in
    let run =
      receive-run p info s s1 s2 t t' d q rx r (le_test (Packet.available p) mtu small) right run1
        run2 run3 ok same run4 in
    subst (λ o. Delivers o (Delivered s n cs p info t it)) (sym run)
      (ok, end, woken, same, (q', d', ds, queue, Kept-step s n cs s1 s2 ds inboxes kept, copied))
