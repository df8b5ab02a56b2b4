-- ===== src/Queue/Simple.antt =====
-- queue/queue_simple.h and queue/queue_iterator.h: SimpleQueue, SimpleSortedQueue, QueueIterator.
use launch_core.Prelude.{
  ℕ, zero, suc, Bool, none, List, [], ◌∷◌, ◌==◌, if◌then◌else◌, add_size, sub_size,
}
use launch_core.Queue.Heap.{Ptr, null, Cmd, pure, ◌>>=◌, ◌>>◌, load, set_prev, set_next}

-- class SimpleQueue
pub record Queue : Type 0 where
  pub head : Ptr
  pub tail : Ptr
  pub size : ℕ

abbrev pub queue : Ptr → Ptr → ℕ → Queue
queue h t n = record { head = h; tail = t; size = n }

unfoldable pub empty_queue : Queue
empty_queue = queue null null 0

-- SimpleQueue::peek_node, num_nodes, head
unfoldable pub peek_node : Queue → Ptr
peek_node q = q.tail

unfoldable pub num_nodes : Queue → ℕ
num_nodes q = q.size

module _ {T : Type 0} where
  -- SimpleQueue::push_node
  unfoldable pub push_node : Queue → Ptr → Cmd T Queue
  push_node q p =
      if null == q.head then (do set_prev p null; set_next p null; pure (queue p p 1)) else (do
        set_prev q.head p
        set_next p q.head
        set_prev p null
        pure (queue p q.tail (add_size q.size 1)))

  -- SimpleQueue::pop_node: the node, or NULL, and the queue without it
  unfoldable pub pop_node : Queue → Cmd T (Ptr × Queue)
  pop_node q = if q.tail == null then pure (q.tail, q) else do
    n ← load q.tail
    if n.prev == null
        then pure (q.tail, queue null n.prev (sub_size q.size 1))
        else do set_next n.prev null; pure (q.tail, queue q.head n.prev (sub_size q.size 1))

  -- SimpleQueue::remove_node
  unfoldable pub remove_node : Queue → Ptr → Cmd T Queue
  remove_node q p =
      if p == q.head
      then (do
        n ← load q.head
        if null == n.next
            then pure (queue null null (sub_size q.size 1))
            else do set_prev n.next null; pure (queue n.next q.tail (sub_size q.size 1)))
      else if p == q.tail
      then (do n ← load p; set_next n.prev null; pure (queue q.head n.prev (sub_size q.size 1)))
      else do
        n ← load p
        set_next n.prev n.next
        m ← load p
        set_prev m.next m.prev
        pure (record q { size = sub_size q.size 1 })

  -- The scan of SimpleSortedQueue::push_node on fuel: the first node that `sort` puts before `v`.
  unfoldable pub scan : (T → T → Bool) → T → ℕ → Ptr → Cmd T Ptr
  scan sort v zero it = λ _. none
  scan sort v (suc fuel) it = if it == null then pure it else do
    n ← load it
    let rest = scan sort v fuel n.next
    if sort n.item v then pure it else rest

  -- SimpleSortedQueue::push_node. The scan follows at most `m_size` links and then meets NULL.
  unfoldable pub push_sorted : (T → T → Bool) → Queue → Ptr → Cmd T Queue
  push_sorted sort q p =
      if null == q.head then (do set_prev p null; set_next p null; pure (queue p p 1)) else do
        n ← load p
        it ← scan sort n.item (suc (add_size q.size 1)) q.head
        if it == null
            then (do
              set_prev p q.tail
              set_next p null
              set_next q.tail p
              pure (queue q.head p (add_size q.size 1)))
            else do
              set_next p it
              m ← load it
              set_prev p m.prev
              set_prev it p
              pure (queue (if it == q.head then p else q.head) q.tail (add_size q.size 1))

  -- QueueIterator: `operator*` is the current node (or NULL), `operator++` steps to the next one.
  unfoldable pub iterate : Ptr → Cmd T Ptr
  iterate it = if it == null then pure null else do n ← load it; pure n.next

  -- The loop of the iterator's clients: the nodes that it meets, on fuel.
  unfoldable pub visit : ℕ → Ptr → Cmd T (List Ptr)
  visit zero it = λ _. none
  visit (suc fuel) it =
      if it == null then pure [] else do next ← iterate it; rest ← visit fuel next; pure (it ∷ rest)
