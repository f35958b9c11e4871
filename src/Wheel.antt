-- ===== src/Wheel.antt =====
-- wheel/wheel.go: the timing wheel, on which an entry waits in a slot for its rounds to pass.
pub mod Slots
pub mod Waits
pub mod Ticks
pub mod Additions
pub mod Cancels
pub mod Schedule
mod Tests
