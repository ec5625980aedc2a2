-- ===== src/Rollout.antt =====
-- crates/h3s-controllers/src/workload/deployment.rs: `plan`, the next step of the rollout of a
-- Deployment, and what it reads. The code's i64 are never negative here.
pub mod Plan
pub mod Steps
pub mod Progress
pub mod Tests
