-- ===== src/Pump/Events.antt =====
-- crates/source-pump/src/decoder.rs: a decoder for the fields of each event.
pub mod Curve
pub mod Swap
pub mod Dispatch
pub mod Framed
