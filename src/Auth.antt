-- ===== src/Auth.antt =====
-- Identity and authorization: crates/h3s-auth/src.
pub mod Rbac
pub mod Node
pub mod Certificate
pub mod Identity
pub mod Subjects
pub mod Granted
pub mod Grants
pub mod Rules
pub mod Scope
pub mod Basic
pub mod Bounds
mod Tests
