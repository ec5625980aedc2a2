-- ===== src/Network.antt =====
-- Node subnets: crates/h3s-api/src/network.rs and `valid_node_name` of crates/h3s-api/src/lib.rs.
pub mod Names
pub mod Allocations
pub mod Reserve
pub mod Next
pub mod Controller
pub mod Assigned
pub mod Tests
