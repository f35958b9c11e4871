-- ===== src/Topn.antt =====
-- topn/topn.go: the first n of some items by a test of which comes first.
pub mod Select
pub mod Orders
mod Best
mod Rounds
pub mod Firsts
pub mod Insertion
mod Tests
