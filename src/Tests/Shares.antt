-- ===== src/Tests/Shares.antt =====
-- Shares, ratios and prices of crates/discovery-engine/src/snapshot.rs on concrete amounts.
use Prim.Native.Nat.{compare}
use soldisco.Prelude.{◌*◌, ◌/◌, ◌^◌, ◌≤◌, ◌≡◌, ◌↔◌, ◌==◌, refl, ok, err, arith, ltb, if◌then◌else◌}
use soldisco.Snapshot.Checked.{arithmetic_overflow}
use soldisco.Snapshot.ScaledRatio.{checked_scaled_ratio, scaled_proper_fraction}
use soldisco.Snapshot.ScaledRatio.Exact.{checked_scaled_ratio_exact}
use soldisco.Snapshot.BasisPoints.{fraction_to_basis_points, fraction_within_basis_point_limit}
use soldisco.Snapshot.BasisPoints.Share.{share_decides}
use soldisco.Snapshot.Price.{PriceRatio, new_ratio, checked_cmp, price_change_basis_points}
use soldisco.Snapshot.Price.Gcd.{greatest_common_divisor}
use soldisco.Snapshot.Price.Order.{checked_cmp_exact}
use soldisco.Snapshot.Price.Change.{exact_change, price_change_exact}

abbrev two_thirds : PriceRatio
two_thirds = record { quote_units = 2; base_units = 3 }

abbrev five_sevenths : PriceRatio
five_sevenths = record { quote_units = 5; base_units = 7 }

share_decides_example : (3334 ≤ 3333) ↔ (1 * 10000 ≤ 3333 * 3)
unfolding fraction_to_basis_points checked_scaled_ratio scaled_proper_fraction
    fraction_within_basis_point_limit
share_decides_example = share_decides 1 3 3334 3333 (omega arith) refl

checked_scaled_ratio_exact_example : checked_scaled_ratio 1 3 10000 ≡ (
    if 3 == 0
    then err arithmetic_overflow
    else if ltb (1 * 10000 / 3) (2 ^ 128)
    then ok (1 * 10000 / 3)
    else err arithmetic_overflow)
checked_scaled_ratio_exact_example =
    checked_scaled_ratio_exact 1 3 10000 (omega arith) (omega arith)

checked_cmp_exact_example : checked_cmp two_thirds five_sevenths ≡ ok (compare (4 * 14) (10 * 6))
unfolding new_ratio greatest_common_divisor
checked_cmp_exact_example =
    checked_cmp_exact 4 6 10 14 two_thirds five_sevenths (omega arith) (omega arith) (omega arith)
      (omega arith) refl refl

price_change_exact_example :
    price_change_basis_points two_thirds five_sevenths ≡ ok (exact_change two_thirds five_sevenths)
price_change_exact_example =
    price_change_exact two_thirds five_sevenths (omega arith) (omega arith) (omega arith)
      (omega arith)
