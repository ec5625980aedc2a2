-- ===== src/Selectors.antt =====
-- Label and field selectors: crates/h3s-apiserver/src/selectors.rs.
pub mod Text
pub mod Labels
pub mod Fields
pub mod Selection
pub mod Trims
pub mod Escapes
mod Tests
pub mod Written
pub mod RoundTrip
