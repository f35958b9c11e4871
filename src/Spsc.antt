-- ===== src/Spsc.antt =====
-- spsc/ring.go: the wait-free ring of one producer and one consumer.
pub mod Slots
pub mod Counters
pub mod Invariant
pub mod Pushes
pub mod Pops
pub mod Queue
mod Tests
