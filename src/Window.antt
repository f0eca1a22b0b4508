-- ===== src/Window.antt =====
-- crates/discovery-engine/src/lib.rs: observation windows, their tokens and their registry.
pub mod Target
pub mod Cells
pub mod Registry
