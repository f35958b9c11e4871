-- ===== src/Art.antt =====
-- art/tree.go and art/node.go: the adaptive radix tree, an ordered map from byte strings.
pub mod Keys
pub mod Tree
pub mod Paths
pub mod Forks
pub mod Splits
pub mod Puts
pub mod Insertions
pub mod Shrinks
pub mod Deletes
pub mod Removals
pub mod Walk
pub mod Entries
pub mod Seeks
pub mod Scans
pub mod Ordered
pub mod Lookup
pub mod Counts
pub mod Losses
pub mod Maps
pub mod Shapes
pub mod Rooms
pub mod Thinning
mod Tests
