-- ===== src/Snapshot/Price.antt =====
-- crates/discovery-engine/src/snapshot.rs: exact prices as reduced fractions, and their change.
-- Euclid's loop recurs on the accessibility of its second variable.
pub mod Gcd
pub mod Order
pub mod Change
use soldisco.Prelude.{
  ℕ, ◌*◌, ◌-◌, ◌/◌, ◌^◌, ◌||◌, ◌&&◌, Bool, true, false, Ordering, compare, ok, err, ◌>>=◌, ◌>>◌,
  reject_if, ltb, leb, ◌==◌, if◌then◌else◌,
}
use soldisco.Prelude.Int.{ℤ, pos, sub_ℕ}
use soldisco.Snapshot.Checked.{Checked, arithmetic_overflow, zero_trade_amount, checked_mul}
use soldisco.Snapshot.ScaledRatio.{checked_scaled_ratio}
use soldisco.Snapshot.BasisPoints.{basis_points_scale}
use Gcd.{greatest_common_divisor}

pub record PriceRatio : Type 0 where
  pub quote_units : ℕ  -- u128
  pub base_units : ℕ  -- u128

-- PriceRatio::new
unfoldable pub new_ratio : ℕ → ℕ → Checked PriceRatio
new_ratio quote_units base_units = do
  reject_if (quote_units == 0 || base_units == 0) zero_trade_amount
  let divisor = greatest_common_divisor quote_units base_units
  ok (record { quote_units = quote_units / divisor; base_units = base_units / divisor })

-- PriceRatio::checked_cmp
unfoldable pub checked_cmp : PriceRatio → PriceRatio → Checked Ordering
unfolding checked_mul
checked_cmp self other = do
  left ← checked_mul self.quote_units other.base_units
  right ← checked_mul other.quote_units self.base_units
  ok (compare left right)

-- An i128 from a magnitude and a sign.
unfoldable pub signed_magnitude : ℕ → Bool → Checked ℤ
signed_magnitude magnitude negative =
    if negative && magnitude == 2 ^ 127
    then ok (sub_ℕ 0 (2 ^ 127))
    else if ltb magnitude (2 ^ 127)
    then ok (if negative then sub_ℕ 0 magnitude else pos magnitude)
    else err arithmetic_overflow

unfoldable pub price_change_basis_points : PriceRatio → PriceRatio → Checked ℤ
unfolding checked_mul signed_magnitude
price_change_basis_points first last = do
  last_cross ← checked_mul last.quote_units first.base_units
  first_cross ← checked_mul first.quote_units last.base_units
  let negative = ltb last_cross first_cross
  let difference = if negative then first_cross - last_cross else last_cross - first_cross
  magnitude ← checked_scaled_ratio difference first_cross basis_points_scale
  signed_magnitude magnitude negative
