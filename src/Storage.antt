-- ===== src/Storage.antt =====
-- The durable registry: crates/h3s-storage.
pub mod Types
pub mod Keys
pub mod Table
pub mod Mutate
pub mod Read
pub mod Maintain
pub mod Log
pub mod Commit
pub mod Snapshot
pub mod Current
pub mod Writes
pub mod Answers
pub mod History
pub mod Replay
pub mod Ascending
pub mod Batch
pub mod Watch
pub mod Pages
pub mod Listing
pub mod ListPage
mod Tests
