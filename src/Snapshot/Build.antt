-- ===== src/Snapshot/Build.antt =====
-- crates/discovery-engine/src/snapshot.rs: `build_market_window_snapshot`. The borrowed observations
-- are values, and the vectors that the loop pushes to are the fields of `Collected`.
pub mod Deterministic
pub mod Keys
pub mod Listed
use Prim.Native.Nat.{Ordering, compare}
use Prim.Native.String.{compare as compare_text}
use soldisco.Prelude.{
  ◌&&◌, not, String, Option, none, some, List, [], ◌∷◌, ok, err, ◌>>=◌, ◌>>◌, reject_if,
  if◌then◌else◌, Bool, true, false, length, retain, any, map, first, last,
}
use soldisco.Prelude.Int.{ℤ, leb_ℤ, ltb_ℤ, compare_ℤ}
use soldisco.Prelude.Order.{then_with, compare_option}
use soldisco.Prelude.Sort.{sort_by}
use soldisco.Prelude.Text.{is_blank, is_empty_text}
use soldisco.Domain.{
  MarketIdentity, market_eq, ObservationKey, key_eq, NormalizedObservation, ObservationPayload,
  source_program_rank, token_created, market_created, trade, liquidity_deposited,
  liquidity_withdrawn, market_completed, market_migrated,
}
use soldisco.TreeMap
use soldisco.TreeMap.{TreeMap}
use soldisco.Snapshot.Checked.{
  Checked, invalid_window_bounds, missing_incomplete_reason, duplicate_observation,
}
use soldisco.Snapshot.Metrics.{new_accumulator}
use soldisco.Snapshot.Samples.{SnapshotCompleteness, complete, incomplete, MarketWindowSnapshot}
use soldisco.Snapshot.Observe.{Collected, observe_all}
use soldisco.Snapshot.Finish.{to_u64, finish}
use soldisco.Snapshot.Summaries.{summarize_reserves, summarize_prices}

-- `observation_order`
abbrev pub observation_order : NormalizedObservation → NormalizedObservation → Ordering
observation_order left right =
    then_with (compare_ℤ left.received_time_unix_ms right.received_time_unix_ms) (
      then_with (compare left.key.slot right.key.slot) (
        then_with (compare_option left.key.transaction_index right.key.transaction_index) (
          then_with (compare_text left.key.signature right.key.signature) (
            then_with (compare left.key.instruction_index right.key.instruction_index) (
              then_with (compare left.key.event_index right.key.event_index) (
                compare (source_program_rank left.key.program)
                  (source_program_rank right.key.program)))))))

-- The filter on the market and the half-open interval.
unfoldable pub matches_window : MarketIdentity → ℤ → ℤ → NormalizedObservation → Bool
matches_window market opened_at closes_at observation =
    market_eq observation.market market
    && leb_ℤ opened_at observation.received_time_unix_ms
    && ltb_ℤ observation.received_time_unix_ms closes_at

-- The loop over the sorted observations with the set of the keys seen.
unfoldable pub find_duplicate :
    List ObservationKey → List NormalizedObservation → Option ObservationKey
find_duplicate seen [] = none
find_duplicate seen (observation ∷ rest) =
    let later = find_duplicate (observation.key ∷ seen) rest in
    if any (key_eq observation.key) seen then some observation.key else later

abbrev creator_of : ObservationPayload → Option String
creator_of (token_created name symbol uri creator user) = some creator
creator_of (market_created creator base quote) = some creator
creator_of (trade side wallet base quote base_reserve quote_reserve) = none
creator_of (liquidity_deposited provider base quote base_reserve quote_reserve lp supply) = none
creator_of (liquidity_withdrawn provider base quote base_reserve quote_reserve lp supply) = none
creator_of (market_completed user) = none
creator_of (market_migrated user destination base legacy) = none

-- The nonempty creators, collected into a set.
unfoldable pub creators_of : List NormalizedObservation → TreeMap (Unit {0})
creators_of [] = TreeMap.empty
creators_of (observation ∷ rest) =
    let others = creators_of rest in
    elim (creator_of observation.payload) [
      | none ↦ others
      | some creator ↦ if is_empty_text creator then others else TreeMap.insert creator tt others
    ]

abbrev pub lacks_reason : SnapshotCompleteness → Bool
lacks_reason complete = false
lacks_reason (incomplete reason_code) = is_blank reason_code

abbrev pub start : SnapshotCompleteness → Collected
start completeness = record {
  completeness = completeness;
  accumulator = new_accumulator;
  trade_samples = [];
  liquidity_samples = [];
  reserve_samples = [];
  price_points = [];
  completion_observation_keys = [];
  migration_observation_keys = [];
  observation_keys = [];
  latest_observed_slot = none;
}

abbrev pub is_empty {ℓ} : {A : Type ℓ} → List A → Bool
is_empty [] = true
is_empty (a ∷ l) = false

abbrev pub reject_duplicate : Option ObservationKey → Checked (Unit {0})
reject_duplicate none = ok tt
reject_duplicate (some key) = err (duplicate_observation key)

-- The snapshot of the observations that match, already in order.
unfoldable pub build_from_sorted :
    MarketIdentity
    → ℤ
    → ℤ
    → SnapshotCompleteness
    → List NormalizedObservation
    → Checked MarketWindowSnapshot
unfolding find_duplicate creators_of
build_from_sorted market opened_at closes_at completeness matching = do
  reject_duplicate (find_duplicate [] matching)
  let creator_wallets = map (λ e. e.0) (creators_of matching).entries
  end ← observe_all (start completeness) matching
  observations ← to_u64 (length end.observation_keys)
  metrics ←
      finish end.accumulator observations creator_wallets (first end.trade_samples)
        (last end.trade_samples)
  prices ← summarize_prices end.price_points
  ok (record {
    market = market;
    opened_at_unix_ms = opened_at;
    closes_at_unix_ms = closes_at;
    completeness = end.completeness;
    observation_keys = end.observation_keys;
    trade_samples = end.trade_samples;
    liquidity_samples = end.liquidity_samples;
    metrics = metrics;
    reserves = summarize_reserves end.reserve_samples;
    prices = prices;
    completion_observed = not (is_empty end.completion_observation_keys);
    migration_observed = not (is_empty end.migration_observation_keys);
    completion_observation_keys = end.completion_observation_keys;
    migration_observation_keys = end.migration_observation_keys;
    latest_observed_slot = end.latest_observed_slot;
  })

unfoldable pub build_market_window_snapshot :
    MarketIdentity
    → ℤ
    → ℤ
    → SnapshotCompleteness
    → List NormalizedObservation
    → Checked MarketWindowSnapshot
unfolding matches_window
build_market_window_snapshot market opened_at closes_at completeness observations = do
  reject_if (leb_ℤ closes_at opened_at) invalid_window_bounds
  reject_if (lacks_reason completeness) missing_incomplete_reason
  build_from_sorted market opened_at closes_at completeness
      (sort_by observation_order (retain (matches_window market opened_at closes_at) observations))
