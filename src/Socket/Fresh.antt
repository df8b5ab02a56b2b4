-- ===== src/Socket/Fresh.antt =====
-- A socket as its constructor leaves it.
use mathlib.Core.Path.{subst}
use launch_core.Prelude.{
  ℕ, ◌≤◌, ◌<◌, ◌≡◌, refl, sym, false, none, some, List, [], ◌∷◌, arith, length, size_mod,
}
use launch_core.Queue.Heap.{Ptr, Node, Heap}
use launch_core.Queue.Fifo.{Yields}
use launch_core.Pool.{Descriptor, pool}
use launch_core.Pool.State.{IsPool, Yields-run}
use launch_core.Pool.Fresh.{pool-IsPool}
use launch_core.AllocQueue.Contents.{alloc_queue-Holds}
use launch_core.Socket.{Stored, Socket, mtu, socket}
use launch_core.Socket.Inbox.{IsSocket}

-- The objects of an array of `n` are there.
abbrev pub IsArray : {T : Type 0} → ℕ → Heap T → Type 0
IsArray {T} n h = (a : Ptr) → 0 < a → a ≤ n → (o : Node T) × (h a ≡ some o)

-- The constructor makes a well-formed socket with no packets, of as many buffers as it is told, on
-- arrays that are there with any contents.
pub socket-IsSocket :
    (self : Ptr) (ds ds' : List Descriptor) (objects nodes nodes' : Heap Ptr)
    (packets : Ptr → Stored)
    → length ds ≡ length ds'
    → length ds < size_mod
    → IsArray (length ds) objects
    → IsArray (length ds) nodes
    → IsArray (length ds) nodes'
    → ((d : Ptr) → length (packets d).buff ≡ mtu)
    → (s : Socket) × (socket self ds ds' (length ds) objects nodes nodes' packets ≡ some s)
      × IsSocket s (length ds) []
unfolding socket
socket-IsSocket self ds ds' objects nodes nodes' packets e small o1 o2 o3 full =
    let (rx, run, queued, cap) =
      alloc_queue-Holds self ds (length ds) objects nodes refl small o1 o2 in
    let (p, g, run', (pooled, len)) = Yields-run (pool self ds' (length ds) nodes') _ (
      subst
        (λ k.
          Yields (pool self ds' k nodes') (λ p g. IsPool g p (λ a. false) 0 × (length p.descs ≡ k)))
        (sym e)
        (pool-IsPool self ds' nodes' (omega (arith, e, small))
          (λ a lt le. o3 a lt (omega (arith, e, le))))) in
    (
      record {
        self = self;
        rx = rx;
        pool = p;
        nodes = g;
        packets = packets;
        ip = 0 ∷ 0 ∷ 0 ∷ 0 ∷ [];
        port = 0;
        waiting = none;
      },
      rw (run, run') refl,
      record {
        queued = queued;
        pooled = pooled;
        once = tt;
        queue_size = cap;
        pool_size = len;
        buffers = full;
      },
    )
