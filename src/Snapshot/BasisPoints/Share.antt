-- ===== src/Snapshot/BasisPoints/Share.antt =====
-- The basis-point share is the exact fraction rounded up, so that comparing it with a limit decides
-- the exact fraction (crates/discovery-engine/src/snapshot.rs).
use native.Mathlib.Nat
use soldisco.Prelude.{
  ℕ, ◌*◌, ◌/◌, ◌%◌, ◌<◌, ◌≤◌, ◌^◌, ◌≡◌, ◌↔◌, ap, Bool, ◌&&◌, inl, inr, true, false, ok, err, ltb,
  leb, ◌==◌, if◌then◌else◌, arith, Bool-cases,
}
use soldisco.Snapshot.Checked.{Checked, arithmetic_overflow}
use soldisco.Snapshot.ScaledRatio.{checked_scaled_ratio}
use soldisco.Snapshot.ScaledRatio.Exact.{
  checked_scaled_ratio_exact, ceil_div, le-of-ceil_div, ceil_div-le_of,
}
use soldisco.Snapshot.BasisPoints.{fraction_within_basis_point_limit, fraction_to_basis_points}

module _ (n d : ℕ) (positive : 0 < d) (word : d < 2 ^ 128) where
  -- The ratio at a limit of at most one whole never overflows.
  ratio_of_limit :
      (limit : ℕ) → limit ≤ 10000 → checked_scaled_ratio d 10000 limit ≡ ok (d * limit / 10000)
  ratio_of_limit limit le =
      let small : d * limit / 10000 ≤ d =
        Nat.div-le_of_le-mul 10000 (omega (arith, Nat.mul-le-mul_left d le)) in
      rw (checked_scaled_ratio_exact d 10000 limit (omega arith) (omega arith)) (ground arith)

  -- The test is exact.
  pub fraction_within_limit_exact :
      (limit : ℕ)
      → limit ≤ 10000
      → fraction_within_basis_point_limit n d limit ≡ ok (leb (n * 10000) (d * limit))
  unfolding fraction_within_basis_point_limit
  fraction_within_limit_exact limit le =
      let nonzero : (d == 0) ≡ false = ground arith in
      let small : ltb 10000 limit ≡ false = ground arith in
      let same : leb n (d * limit / 10000) ≡ leb (n * 10000) (d * limit) = ground (arith) in
      rw (nonzero, small, ratio_of_limit limit le) (ap {B = Checked Bool} ok same)

module _ (n d : ℕ) (positive : 0 < d) (word : d < 2 ^ 128) (part : n ≤ d) where
  floor-le : n * 10000 / d ≤ 10000
  floor-le = Nat.div-le_of_le-mul d (omega (arith, part))

  floor_ratio : checked_scaled_ratio n d 10000 ≡ ok (n * 10000 / d)
  floor_ratio =
      rw (checked_scaled_ratio_exact n d 10000 (omega arith) word) (ground (arith, floor-le))

  -- The test of the floor asks whether the division left no remainder.
  floor_is_exact : leb (n * 10000) (d * (n * 10000 / d)) ≡ (n * 10000 % d == 0)
  floor_is_exact = ground (arith, Nat.div-add-mod (n * 10000) d)

  -- The share is the exact fraction of the whole, in basis points, rounded up.
  pub fraction_to_basis_points_exact : fraction_to_basis_points n d ≡ ok (ceil_div (n * 10000) d)
  unfolding fraction_to_basis_points
  fraction_to_basis_points_exact =
      let nonzero : (d == 0) ≡ false = ground arith in
      let inside : ltb d n ≡ false = ground arith in
      let narrow : ltb (n * 10000 / d) (2 ^ 16) ≡ true = ground (arith, floor-le) in
      rw (nonzero, inside, floor_ratio)
        (rw narrow (
          rw (fraction_within_limit_exact n d positive word (n * 10000 / d) floor-le)
            (ground (arith, floor_is_exact, floor-le))))

-- Only a part of a nonempty whole has a share.
returned_part : (n d share : ℕ) → fraction_to_basis_points n d ≡ ok share → (0 < d) × (n ≤ d)
unfolding fraction_to_basis_points
returned_part n d share returned = ground arith

-- For a whole below 2^128 the share is the quotient in basis points rounded up for every part of a
-- nonempty whole, and the overflow error for anything else.
fraction_to_basis_points_total :
    (n d : ℕ)
    → d < 2 ^ 128
    → fraction_to_basis_points n d
      ≡ (if leb 1 d && leb n d then ok (ceil_div (n * 10000) d) else err arithmetic_overflow)
unfolding fraction_to_basis_points
fraction_to_basis_points_total n d word = elim (Bool-cases (leb 1 d && leb n d)) [
  | inl part ↦ rw part (fraction_to_basis_points_exact n d (ground arith) word (ground arith))
  | inr other ↦ rw other (ground arith)
]

-- Whenever a share of a whole below 2^128 is returned, comparing it with a limit decides the exact
-- fraction: rounding admits no wallet above the limit and rejects none within it.
pub share_decides :
    (n d share limit : ℕ)
    → d < 2 ^ 128
    → fraction_to_basis_points n d ≡ ok share
    → (share ≤ limit) ↔ (n * 10000 ≤ limit * d)
share_decides n d share limit word returned =
    let (positive, part) = returned_part n d share returned in
    let e : ceil_div (n * 10000) d ≡ share =
      ground (arith, fraction_to_basis_points_exact n d positive word part) in
    rw (← e)
      (le-of-ceil_div (n * 10000) d limit positive, ceil_div-le_of (n * 10000) d limit positive)
