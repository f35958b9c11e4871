-- ===== src/Lru.antt =====
-- lru/lru.go: the sharded cache that evicts the least recently used entry.
pub mod Shard
pub mod Order
pub mod Recency
pub mod Eviction
pub mod Cache
pub mod Range
pub mod Sharding
mod Tests
