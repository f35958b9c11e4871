-- ===== src/Semaphore.antt =====
-- semaphore/semaphore.go: the counting semaphore.
pub mod Permits
pub mod Holders
mod Sleeps
mod Tests
