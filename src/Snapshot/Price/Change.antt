-- ===== src/Snapshot/Price/Change.antt =====
-- The change of a price in basis points (crates/discovery-engine/src/snapshot.rs).
use native.Mathlib.Nat
use soldisco.Prelude.{
  ℕ, ◌-◌, ◌*◌, ◌/◌, ◌<◌, ◌≤◌, ◌≡◌, ◌^◌, ok, ltb, if◌then◌else◌, arith, ltb→lt, Bool-cases, inl, inr,
  ◌>>=◌,
}
use soldisco.Prelude.Int.{ℤ, pos, sub_ℕ}
use soldisco.Snapshot.Checked.{checked_mul-eq-ok}
use soldisco.Snapshot.ScaledRatio.{checked_scaled_ratio}
use soldisco.Snapshot.ScaledRatio.Exact.{checked_scaled_ratio_exact}
use soldisco.Snapshot.Price.{PriceRatio, price_change_basis_points, signed_magnitude}

-- The change from `first` to `last` in basis points of `first`, rounded towards zero.
abbrev pub exact_change : PriceRatio → PriceRatio → ℤ
exact_change first last =
    let before = first.quote_units * last.base_units in
    let after = last.quote_units * first.base_units in
    if ltb after before
    then sub_ℕ 0 ((before - after) * 10000 / before)
    else pos ((after - before) * 10000 / before)

module _ (before after : ℕ) (nonzero : 0 < before) (word : before < 2 ^ 128) where
  ratio_within :
      (difference : ℕ)
      → difference * 10000 / before < 2 ^ 127
      → checked_scaled_ratio difference before 10000 ≡ ok (difference * 10000 / before)
  ratio_within difference small =
      rw (checked_scaled_ratio_exact difference before 10000 (omega arith) word) (ground arith)

  fall_within : after < before → (before - after) * 10000 / before < 2 ^ 127
  fall_within fell =
      let le : (before - after) * 10000 / before ≤ 10000 =
        Nat.div-le_of_le-mul before (omega arith) in
      omega arith

  scaled_change :
      (after - before) * 10000 / before < 2 ^ 127
      → (checked_scaled_ratio
            (if ltb after before then before - after else after - before)
            before
            10000
          >>= λ magnitude. signed_magnitude magnitude (ltb after before))
        ≡ ok (
            if ltb after before
            then sub_ℕ 0 ((before - after) * 10000 / before)
            else pos ((after - before) * 10000 / before))
  unfolding signed_magnitude
  scaled_change small = elim (Bool-cases (ltb after before)) [
    | inl fell ↦
        let within = fall_within (ltb→lt _ _ fell) in
        rw fell (rw (ratio_within _ within) (ground arith))
    | inr rose ↦ rw rose (rw (ratio_within _ small) (ground arith))
  ]

-- Where the cross products fit into 128 bits, the first price is not zero and a rise is below 2^127 basis
-- points, the source returns the exact change. A fall has no bound: it is at most 10000 basis points.
pub price_change_exact :
    (first last : PriceRatio)
    → 0 < first.quote_units * last.base_units
    → first.quote_units * last.base_units < 2 ^ 128
    → last.quote_units * first.base_units < 2 ^ 128
    → (last.quote_units * first.base_units - first.quote_units * last.base_units)
        * 10000
        / (first.quote_units * last.base_units)
      < 2 ^ 127
    → price_change_basis_points first last ≡ ok (exact_change first last)
unfolding price_change_basis_points
price_change_exact first last nonzero before_word after_word small =
    rw (checked_mul-eq-ok _ _ before_word, checked_mul-eq-ok _ _ after_word)
      (scaled_change _ _ nonzero before_word small)
