-- ===== src/Queue.antt =====
-- queue/: doubly linked queues over nodes that the caller provides (queue_simple.h), with their sorted
-- kind, and their iterator (queue_iterator.h).
pub mod Heap
pub mod Simple
pub mod Chain
pub mod Fifo
pub mod Remove
pub mod Sorted
mod Examples
