-- ===== src/Sketch.antt =====
-- sketch/sketch.go: the count-min sketch.
pub mod Counters
mod Rows
mod Fills
mod Estimates
mod Merges
mod Tests
