-- ===== src/Snapshot/ScaledRatio.antt =====
-- crates/discovery-engine/src/snapshot.rs: `ceil_scaled_denominator`, `scaled_proper_fraction` and
-- `checked_scaled_ratio`. The binary search of the second recurs on the accessibility of its
-- interval, which shrinks in every round, so it needs no fuel.
pub mod Exact
use mathlib.Core.WellFounded.{Acc}
use mathlib.Core.Logic.{dite}
use soldisco.Prelude.{
  ℕ, zero, suc, ◌+◌, ◌-◌, ◌/◌, ◌%◌, ◌<◌, ◌||◌, true, false, ok, err, ◌>>=◌, ◌>>◌, reject_if, ltb,
  leb, ◌==◌, if◌then◌else◌, arith,
}
use native.Mathlib.Decide.{dec_lt}
use soldisco.Snapshot.Checked.{Checked, arithmetic_overflow, checked_add, checked_mul, u128_width}

-- ceil(multiplier * value / divisor)
unfoldable pub ceil_scaled_denominator : ℕ → ℕ → ℕ → Checked ℕ
unfolding checked_add checked_mul
ceil_scaled_denominator multiplier value divisor = do
  reject_if (divisor == 0 || ltb divisor multiplier) arithmetic_overflow
  let quotient = value / divisor
  let remainder = value % divisor
  whole ← checked_mul quotient multiplier
  remainder_product ← checked_mul remainder multiplier
  let rounded_fraction =
      remainder_product / divisor + (if remainder_product % divisor == 0 then 0 else 1)
  checked_add u128_width whole rounded_fraction

-- The variables `low` and `high` of the search.
pub record Interval : Type 0 where
  pub low : ℕ
  pub high : ℕ

infix 50 ◌⊏◌
abbrev pub ◌⊏◌ : Interval → Interval → Type 0
r ⊏ s = r.high - r.low < s.high - s.low

abbrev pub midpoint_of : Interval → ℕ
midpoint_of r = r.low + (r.high - r.low + 1) / 2

abbrev pub upper : Interval → Interval
upper r = record { low = midpoint_of r; high = r.high }

abbrev pub lower : Interval → Interval
lower r = record { low = r.low; high = midpoint_of r - 1 }

pub upper-⊏ : (r : Interval) → r.low < r.high → upper r ⊏ r
upper-⊏ r h = omega arith

pub lower-⊏ : (r : Interval) → r.low < r.high → lower r ⊏ r
lower-⊏ r h = omega arith

Acc-below : (k : ℕ) (r : Interval) → r.high - r.low < k → Acc ◌⊏◌ r
Acc-below zero r h = elim h [ ]
Acc-below (suc k) r h = Acc.intro r (λ s smaller. Acc-below k s (omega arith))

unfoldable pub Interval-acc : (r : Interval) → Acc ◌⊏◌ r
unfolding Acc-below
Interval-acc r = Acc-below (suc (r.high - r.low)) r (omega arith)

-- `while low < high { ... } Ok(low)`
unfoldable pub search_fraction : ℕ → ℕ → ℕ → (r : Interval) → Acc ◌⊏◌ r → Checked ℕ
search_fraction numerator denominator scale r (Acc.intro _ smaller) =
    dite (dec_lt r.low r.high)
      (λ open_interval. elim (ceil_scaled_denominator (midpoint_of r) denominator scale) [
        | ok bound ↦ elim (leb bound numerator) [
          | true ↦
              search_fraction numerator denominator scale (upper r)
                (smaller _ (upper-⊏ r open_interval))
          | false ↦
              search_fraction numerator denominator scale (lower r)
                (smaller _ (lower-⊏ r open_interval))
        ]
        | err e ↦ err e
      ])
      (λ _. ok r.low)

-- floor(numerator * scale / denominator) for numerator < denominator
unfoldable pub scaled_proper_fraction : ℕ → ℕ → ℕ → Checked ℕ
unfolding search_fraction Interval-acc ceil_scaled_denominator dec_lt
scaled_proper_fraction numerator denominator scale =
    if numerator == 0 || scale == 0
    then ok 0
    else search_fraction numerator denominator scale whole (Interval-acc whole)
  where
    whole : Interval
    whole = record { low = 0; high = scale }

-- floor(numerator * scale / denominator)
unfoldable pub checked_scaled_ratio : ℕ → ℕ → ℕ → Checked ℕ
unfolding checked_mul checked_add
checked_scaled_ratio numerator denominator scale = do
  reject_if (denominator == 0) arithmetic_overflow
  let whole = numerator / denominator
  let remainder = numerator % denominator
  whole_scaled ← checked_mul whole scale
  fractional ← scaled_proper_fraction remainder denominator scale
  checked_add u128_width whole_scaled fractional
