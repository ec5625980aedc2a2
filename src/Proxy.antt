-- ===== src/Proxy.antt =====
-- crates/h3s-proxy/src/plan.rs: which rules the service proxy programs for the Services, the
-- EndpointSlices and the Nodes of a snapshot.
pub mod Ip
pub mod Types
pub mod Forwarding
pub mod Nodes
pub mod Backends
pub mod Draft
pub mod Frontends
pub mod Claims
pub mod Matches
pub mod Collects
pub mod Exact
pub mod Addresses
pub mod Published
pub mod Served
pub mod Listing
pub mod Render
pub mod Rules
pub mod Chains
pub mod Ruleset
pub mod Tests
pub mod Usable
