-- ===== src/Backoff.antt =====
-- backoff/backoff.go: waiting in a loop, at first by spinning, then by yielding, then by sleeping.
pub mod Spin
pub mod Phases
mod Tests
