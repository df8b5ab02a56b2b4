-- ===== src/Socket/Inbox.antt =====
-- The packets that a socket holds: the buffers on its queue are just those that its pool has given
-- out. What `recv` takes is the oldest packet.
use launch_core.Prelude.{
  ℕ, ◌≡◌, ◌∙◌, refl, ap, Bool, true, false, ◌||◌, Option, none, some, List, [], ◌∷◌, ◌++◌, arith,
  ◌==◌, if◌then◌else◌, ltb, length, length-append, take, success,
}
use launch_core.Queue.Heap.{Ptr}
use launch_core.Queue.Chain.{Cells}
use launch_core.Pool.{free}
use launch_core.Pool.State.{IsPool, Yields-run, holds, Once, holds_snoc, Once-init}
use launch_core.Pool.Free.{free-IsPool}
use launch_core.AllocQueue
use launch_core.AllocQueue.{AllocQueue}
use launch_core.AllocQueue.Contents.{Gives-run, Holds, capacity, peek_oldest, pop-Holds}
use launch_core.Socket.{Stored, Socket, Received, mtu, take_packet}

-- The cells `cs` of the receive queue, newest first; each holds a buffer of the pool of `n` buffers.
pub record IsSocket (s : Socket) (n : ℕ) (cs : Cells Ptr) : Type 0 where
  pub queued : Holds s.rx cs
  pub pooled : IsPool s.nodes s.pool (λ a. holds a cs) (length cs)
  pub once : Once cs
  pub queue_size : capacity s.rx ≡ n
  pub pool_size : length s.pool.descs ≡ n
  pub buffers : (d : Ptr) → length (s.packets d).buff ≡ mtu

-- The packets, newest first.
abbrev pub inbox : Socket → Cells Ptr → List Stored
inbox s [] = []
inbox s ((_, d) ∷ cs) = s.packets d ∷ inbox s cs

pub inbox_snoc :
    (s : Socket) (cs : Cells Ptr) (p d : Ptr)
    → inbox s (cs ++ ((p, d) ∷ [])) ≡ inbox s cs ++ (s.packets d ∷ [])
inbox_snoc s [] p d = refl
inbox_snoc s ((q, e) ∷ cs) p d = ap (λ l. s.packets e ∷ l) (inbox_snoc s cs p d)

holds_same : (cs : Cells Ptr) (a d : Ptr) → (a == d) ≡ true → holds a cs ≡ holds d cs
holds_same cs a d e = let same : a ≡ d = ground arith in ap (λ b. holds b cs) same

pub self_or : (d : ℕ) (b : Bool) → (b || (d == d)) ≡ true
self_or d b = ground arith

-- Without the oldest buffer, the pool has given out the others.
pub holds-left :
    (cs : Cells Ptr) (p d a : Ptr)
    → Once (cs ++ ((p, d) ∷ []))
    → holds a cs ≡ (if a == d then false else holds a (cs ++ ((p, d) ∷ [])))
holds-left cs p d a o =
    ground (arith, holds_snoc a cs p d, (Once-init cs p d o).1, holds_same cs a d)

-- A call that ends without a fault, with what holds then.
abbrev pub Takes : Option (Received × Socket) → (Received → Socket → Type 0) → Type 0
Takes none P = ⊥
Takes (some (r, s)) P = P r s

pub Takes-run :
    (o : Option (Received × Socket)) (P : Received → Socket → Type 0)
    → Takes o P
    → (r : Received) × (s : Socket) × (o ≡ some (r, s)) × P r s
Takes-run none P b = absurd b
Takes-run (some (r, s)) P b = (r, s, refl, b)

-- `recv` on a socket that holds a packet returns the oldest: its bytes as far as the caller has room
-- for them, its length and its source. The buffer is given back and the other packets stay.
pub take_packet-inbox :
    {s : Socket} {n : ℕ} (len : ℕ) (cs : Cells Ptr) (p d : Ptr)
    → IsSocket s n (cs ++ ((p, d) ∷ []))
    → Takes (take_packet len s) (λ r s'.
      (let v = s.packets d in
        (r.ret ≡ success)
        × (r.out ≡ take (if ltb len v.len then len else v.len) v.buff)
        × (r.len ≡ v.len)
        × (r.from_ip ≡ v.ip)
        × (r.from_port ≡ v.port))
      × IsSocket s' n cs
      × (inbox s (cs ++ ((p, d) ∷ [])) ≡ inbox s' cs ++ (s.packets d ∷ [])))
unfolding take_packet
take_packet-inbox {s} len cs p d i =
    let old : Cells Ptr = cs ++ ((p, d) ∷ []) in
    let (peeked, read_p) = peek_oldest cs p d i.queued in
    let (_, rx, run, (rx_holds, cap, _)) =
      Gives-run (AllocQueue.pop s.rx) _ (pop-Holds cs p d i.queued) in
    let held : holds d old ≡ true = holds_snoc d cs p d ∙ self_or d (holds d cs) in
    let ((ok, pool), nodes, run', (fine, pooled, len_eq)) = Yields-run (free s.pool d s.nodes) _ (
      free-IsPool i.pooled d (length cs) (λ a. holds a cs) held
        (omega (arith, length-append cs ((p, d) ∷ []))) (λ a. holds-left cs p d a i.once)) in
    rw (peeked, read_p, run, run', fine)
      (
        (refl, refl, refl, refl, refl),
        record {
          queued = rx_holds;
          pooled = pooled;
          once = (Once-init cs p d i.once).0;
          queue_size = cap ∙ i.queue_size;
          pool_size = len_eq ∙ i.pool_size;
          buffers = i.buffers;
        },
        inbox_snoc s cs p d,
      )
