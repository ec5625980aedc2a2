-- ===== src/Patch.antt =====
-- crates/h3s-apiserver/src/patch.rs and patch/strategic.rs: patches of an object. The work of a
-- strategic merge is paid from a budget, which is a state here.
pub mod Budget
pub mod Schema
pub mod Fields
pub mod Reorder
pub mod Directives
pub mod Merge
pub mod Sequence
pub mod Frame
pub mod Measure
pub mod Fresh
pub mod Weight
pub mod Size
pub mod Growth
pub mod Parts
pub mod Bound
pub mod Apply
pub mod Copied
pub mod Pruned
pub mod Tests
