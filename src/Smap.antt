-- ===== src/Smap.antt =====
-- smap/smap.go: a map from keys to values, in shards that are locked each by itself.
pub mod Shards
pub mod Entries
pub mod Calls
pub mod Steps
pub mod Held
pub mod Deletions
mod Runs
mod Fibonacci
pub mod Ranges
mod Tests
