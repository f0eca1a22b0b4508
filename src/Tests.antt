-- ===== src/Tests.antt =====
-- Runs of the models, and each theorem at a concrete input.
mod Sources
mod Events
mod Markets
mod Intake
mod Activity
mod Windows
mod Shares
mod Snapshots
mod Decisions
