-- ===== src/Ratelimit.antt =====
-- ratelimit/ratelimit.go: the token bucket.
pub mod Bucket
pub mod Calls
pub mod Paid
pub mod Bounds
pub mod Waits
pub mod Addresses
mod Admissions
mod Collects
mod Evictions
mod Tops
mod Windows
mod Isolation
mod Answers
mod Tests
