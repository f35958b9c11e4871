-- ===== src/Ring.antt =====
-- ring/ring.go: the growing ring of bytes.
pub mod Buffer
pub mod Copies
pub mod Inv
pub mod Reads
pub mod Writes
pub mod Segments
pub mod Peeks
pub mod Commits
pub mod Stream
pub mod Streams
pub mod Fills
pub mod Unread
mod Tests
