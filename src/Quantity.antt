-- ===== src/Quantity.antt =====
-- Resource quantities: crates/h3s-api/src/quantity.rs.
pub mod Parse
pub mod Grammar
pub mod Rounded
pub mod Exact
pub mod Accepts
mod Tests
