-- ===== src/Snapshot/Summaries.antt =====
-- crates/discovery-engine/src/snapshot.rs: `summarize_reserves` and `summarize_prices`.
use Prim.Native.Nat.{Ordering}
use soldisco.Prelude.{
  ℕ, Option, none, some, List, [], ◌∷◌, Result, ok, err, ◌>>=◌, if◌then◌else◌, Bool, true, false,
  ltb,
}
use soldisco.Snapshot.Checked.{Checked}
use soldisco.Snapshot.Price.{checked_cmp, price_change_basis_points}
use soldisco.Snapshot.Samples.{
  ReserveSample, ReserveExtremum, ReserveSummary, PricePoint, PriceSummary,
}

abbrev pub extremum_of : ReserveSample → ℕ → ReserveExtremum
extremum_of sample units = record {
  observation_key = sample.observation_key;
  received_time_unix_ms = sample.received_time_unix_ms;
  units = units;
}

abbrev pub is_lower : ℕ → Option ReserveExtremum → Bool
is_lower units none = true
is_lower units (some current) = ltb units current.units

abbrev pub is_higher : ℕ → Option ReserveExtremum → Bool
is_higher units none = true
is_higher units (some current) = ltb current.units units

-- The minimum and the maximum that `update_extrema` writes.
unfoldable pub update_extrema :
    Option ReserveExtremum × Option ReserveExtremum
    → ReserveSample
    → Option ℕ
    → Option ReserveExtremum × Option ReserveExtremum
update_extrema (minimum, maximum) sample none = (minimum, maximum)
update_extrema (minimum, maximum) sample (some units) = (
  if is_lower units minimum then some (extremum_of sample units) else minimum,
  if is_higher units maximum then some (extremum_of sample units) else maximum,
)

-- The loop over the samples, for the base or the quote side that `units_of` reads.
unfoldable pub extrema_from :
    (ReserveSample → Option ℕ)
    → Option ReserveExtremum × Option ReserveExtremum
    → List ReserveSample
    → Option ReserveExtremum × Option ReserveExtremum
unfolding update_extrema
extrema_from units_of extrema [] = extrema
extrema_from units_of extrema (sample ∷ rest) =
    extrema_from units_of (update_extrema extrema sample (units_of sample)) rest

abbrev pub last_or {ℓ} : {A : Type ℓ} → A → List A → A
last_or a [] = a
last_or a (b ∷ rest) = last_or b rest

unfoldable pub summarize_reserves : List ReserveSample → Option ReserveSummary
unfolding extrema_from
summarize_reserves [] = none
summarize_reserves (first ∷ rest) =
    let samples = first ∷ rest in
    let (minimum_base, maximum_base) = extrema_from (λ s. s.base_units) (none, none) samples in
    let (minimum_quote, maximum_quote) = extrema_from (λ s. s.quote_units) (none, none) samples in
    some (record {
      first = first;
      latest = last_or first rest;
      minimum_base = minimum_base;
      maximum_base = maximum_base;
      minimum_quote = minimum_quote;
      maximum_quote = maximum_quote;
      samples = samples;
    })

abbrev pub is_less : Ordering → Bool
is_less Ordering.lt = true
is_less Ordering.eq = false
is_less Ordering.gt = false

abbrev pub is_greater : Ordering → Bool
is_greater Ordering.lt = false
is_greater Ordering.eq = false
is_greater Ordering.gt = true

-- The loop over the later points that keeps the lowest and the highest.
unfoldable pub price_range_from :
    PricePoint → PricePoint → List PricePoint → Checked (PricePoint × PricePoint)
unfolding checked_cmp
price_range_from low high [] = ok (low, high)
price_range_from low high (point ∷ rest) = do
  against_low ← checked_cmp point.ratio low.ratio
  let low' = if is_less against_low then point else low
  against_high ← checked_cmp point.ratio high.ratio
  let high' = if is_greater against_high then point else high
  price_range_from low' high' rest

-- Result::ok
abbrev pub to_option {ℓ κ} : {E : Type ℓ} {A : Type κ} → Result E A → Option A
to_option (ok a) = some a
to_option (err e) = none

unfoldable pub summarize_prices : List PricePoint → Checked (Option PriceSummary)
unfolding price_range_from price_change_basis_points
summarize_prices [] = ok none
summarize_prices (first ∷ rest) = do
  (low, high) ← price_range_from first first rest
  let last = last_or first rest
  ok (
      some (record {
        first = first;
        last = last;
        low = low;
        high = high;
        change_bps = to_option (price_change_basis_points first.ratio last.ratio);
      }))
