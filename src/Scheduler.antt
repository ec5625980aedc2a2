-- ===== src/Scheduler.antt =====
-- The scheduler: crates/h3s-scheduler/src.
pub mod Resources
pub mod Nodes
pub mod Affinity
pub mod Select
pub mod Demand
pub mod Feasible
pub mod Best
pub mod Condition
pub mod Cycle
pub mod Assign
pub mod Settle
pub mod Replace
pub mod Accepted
pub mod Commit
mod Tests
