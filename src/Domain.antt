-- ===== src/Domain.antt =====
-- The provider-neutral facts of crates/domain: market.rs, observation.rs and assessment.rs.
-- A u64, u16 or u8 is a native number, an i64 an integer. The field `source_details` of an
-- observation, a JSON value that no modelled operation reads, is left out.
mod Market
mod Observation
mod Assessment
unfoldable pub use Market.*
unfoldable pub use Observation.*
pub use Assessment.*
