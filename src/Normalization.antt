-- ===== src/Normalization.antt =====
-- The normalization of decoded Pump events into observations (apps/server/src/jobs).
pub mod Pair
pub mod Registry
pub mod Event
