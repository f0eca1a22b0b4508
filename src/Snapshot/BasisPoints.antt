-- ===== src/Snapshot/BasisPoints.antt =====
-- crates/discovery-engine/src/snapshot.rs: shares of a volume in basis points.
pub mod Share
use soldisco.Prelude.{
  ℕ, ◌+◌, ◌<◌, ◌^◌, Bool, ◌||◌, Result, ok, err, ◌>>=◌, ◌>>◌, reject_if, ltb, leb, ◌==◌,
  if◌then◌else◌,
}
use soldisco.Snapshot.Checked.{Checked, arithmetic_overflow, checked_add, u128_width}
use soldisco.Snapshot.ScaledRatio.{checked_scaled_ratio}

abbrev pub basis_points_scale : ℕ
basis_points_scale = 10000

-- u16::try_from(value).map_err(|_| ArithmeticOverflow)
unfoldable pub to_u16 : ℕ → Checked ℕ
to_u16 value = if ltb value (2 ^ 16) then ok value else err arithmetic_overflow

unfoldable pub fraction_within_basis_point_limit : ℕ → ℕ → ℕ → Checked Bool
fraction_within_basis_point_limit numerator denominator maximum_bps = do
  reject_if (denominator == 0 || ltb basis_points_scale maximum_bps) arithmetic_overflow
  maximum_numerator ← checked_scaled_ratio denominator basis_points_scale maximum_bps
  ok (leb numerator maximum_numerator)

unfoldable pub fraction_to_basis_points : ℕ → ℕ → Checked ℕ
unfolding to_u16 checked_add
fraction_to_basis_points numerator denominator = do
  reject_if (denominator == 0 || ltb denominator numerator) arithmetic_overflow
  floor ← checked_scaled_ratio numerator denominator basis_points_scale
  narrow_floor ← to_u16 floor
  within ← fraction_within_basis_point_limit numerator denominator narrow_floor
  value ← if within then ok floor else checked_add u128_width floor 1
  to_u16 value
