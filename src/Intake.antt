-- ===== src/Intake.antt =====
-- apps/server/src/jobs/intake.rs: the program data of a transaction's logs.
pub mod Lines
pub mod Scope
pub mod SelfCpi
pub mod Targets
pub mod Classify
pub mod Active
pub mod Pending
