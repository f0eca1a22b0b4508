-- ===== src/Snapshot.antt =====
-- crates/discovery-engine/src/snapshot.rs: the evidence of one observation window.
pub mod Checked
pub mod ScaledRatio
pub mod BasisPoints
pub mod Price
pub mod Metrics
pub mod Samples
pub mod Finish
pub mod Summaries
pub mod Observe
pub mod Build
