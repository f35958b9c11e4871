-- ===== src/Arena.antt =====
-- arena/arena.go: the bump allocator, which hands out slices of chunks.
pub mod Chunks
pub mod Allocs
pub mod Slices
pub mod Snapshots
mod Tests
