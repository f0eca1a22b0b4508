-- ===== src/Snapshot/Observe.antt =====
-- crates/discovery-engine/src/snapshot.rs: the body of the main loop of
-- `build_market_window_snapshot`. The vectors that it pushes to are the fields of `Collected`.
use soldisco.Prelude.{
  ℕ, ◌==◌, ◌||◌, max, String, Option, none, some, List, [], ◌∷◌, ◌++◌, ok, ◌>>=◌, if◌then◌else◌,
  Bool, true, false, first,
}
use soldisco.Prelude.Text.{is_blank}
use soldisco.Domain.{
  ObservationKey, NormalizedObservation, ObservationPayload, token_created, market_created, trade,
  liquidity_deposited, liquidity_withdrawn, market_completed, market_migrated, TradeSide,
}
use soldisco.Snapshot.Checked.{Checked}
use soldisco.Snapshot.Price.{new_ratio}
use soldisco.Snapshot.Metrics.{MetricsAccumulator, record_trade}
use soldisco.Snapshot.Samples.{
  SnapshotCompleteness, complete, incomplete, TradeSample, LiquiditySample, LiquidityDirection,
  deposit, withdraw, ReserveSample, PricePoint,
}

-- The variables of the main loop.
pub record Collected : Type 0 where
  pub completeness : SnapshotCompleteness
  pub accumulator : MetricsAccumulator
  pub trade_samples : List TradeSample
  pub liquidity_samples : List LiquiditySample
  pub reserve_samples : List ReserveSample
  pub price_points : List PricePoint
  pub completion_observation_keys : List ObservationKey
  pub migration_observation_keys : List ObservationKey
  pub observation_keys : List ObservationKey
  pub latest_observed_slot : Option ℕ

abbrev pub mark_incomplete_if_complete : SnapshotCompleteness → String → SnapshotCompleteness
mark_incomplete_if_complete complete reason_code = incomplete reason_code
mark_incomplete_if_complete (incomplete first) reason_code = incomplete first

-- `latest_observed_slot.map_or(slot, |latest| latest.max(slot))`
abbrev pub later_slot : Option ℕ → ℕ → ℕ
later_slot none slot = slot
later_slot (some latest) slot = max latest slot

-- The two pushes at the head of the loop's body.
abbrev see_key : Collected → ObservationKey → Collected
see_key state key = record state {
  observation_keys = state.observation_keys ++ (key ∷ []);
  latest_observed_slot = some (later_slot state.latest_observed_slot key.slot);
}

abbrev pub has_reserve : Option ℕ → Option ℕ → Bool
has_reserve none none = false
has_reserve _ _ = true

-- A trade of nonzero amounts by a named wallet.
unfoldable pub observe_trade :
    Collected
    → NormalizedObservation
    → TradeSide
    → String
    → ℕ
    → ℕ
    → Option ℕ
    → Option ℕ
    → Checked Collected
observe_trade state observation side wallet base quote base_reserve quote_reserve = do
  ratio ← new_ratio quote base
  accumulator ← record_trade state.accumulator side wallet base quote
  let key = observation.key
  let received = observation.received_time_unix_ms
  ok (record state {
    accumulator = accumulator;
    trade_samples =
        state.trade_samples
        ++ (record {
          observation_key = key;
          received_time_unix_ms = received;
          source_event_time_unix_ms = observation.source_event_time_unix_ms;
          side = side;
          wallet = wallet;
          base_amount_units = base;
          quote_amount_units = quote;
          base_reserve_units = base_reserve;
          quote_reserve_units = quote_reserve;
        }
            ∷ []);
    reserve_samples =
        if has_reserve base_reserve quote_reserve
        then state.reserve_samples
          ++ (record {
            observation_key = key;
            received_time_unix_ms = received;
            base_units = base_reserve;
            quote_units = quote_reserve;
          }
              ∷ [])
        else state.reserve_samples;
    price_points =
        state.price_points
        ++ (record { observation_key = key; received_time_unix_ms = received; ratio = ratio } ∷ []);
  })

unfoldable pub observe_liquidity :
    Collected
    → NormalizedObservation
    → LiquidityDirection
    → String
    → ℕ
    → ℕ
    → ℕ
    → ℕ
    → ℕ
    → ℕ
    → Collected
observe_liquidity state observation direction provider base quote base_reserve quote_reserve lp
      supply =
    record state {
      liquidity_samples =
          state.liquidity_samples
          ++ (record {
            observation_key = observation.key;
            received_time_unix_ms = observation.received_time_unix_ms;
            source_event_time_unix_ms = observation.source_event_time_unix_ms;
            direction = direction;
            provider = provider;
            base_amount_units = base;
            quote_amount_units = quote;
            base_reserve_units = base_reserve;
            quote_reserve_units = quote_reserve;
            lp_token_amount_units = lp;
            lp_token_supply_units = supply;
          }
              ∷ []);
      reserve_samples =
          state.reserve_samples
          ++ (record {
            observation_key = observation.key;
            received_time_unix_ms = observation.received_time_unix_ms;
            base_units = some base_reserve;
            quote_units = some quote_reserve;
          }
              ∷ []);
    }

-- The match on the payload.
unfoldable pub observe_payload :
    Collected → NormalizedObservation → ObservationPayload → Checked Collected
unfolding observe_liquidity
observe_payload state observation (trade side wallet base quote base_reserve quote_reserve) =
    if is_blank wallet
    then ok (record state {
      completeness = mark_incomplete_if_complete state.completeness "INVALID_TRADE_WALLET";
    })
    else if base == 0 || quote == 0
    then ok (record state {
      completeness = mark_incomplete_if_complete state.completeness "INVALID_TRADE_AMOUNT";
    })
    else observe_trade state observation side wallet base quote base_reserve quote_reserve
observe_payload state observation (market_completed user) = ok (record state {
  completion_observation_keys = state.completion_observation_keys ++ (observation.key ∷ []);
})
observe_payload state observation (market_migrated user destination base legacy) =
    ok (record state {
      migration_observation_keys = state.migration_observation_keys ++ (observation.key ∷ []);
    })
observe_payload state observation
      (liquidity_deposited provider base quote base_reserve quote_reserve lp supply) =
    ok (
      observe_liquidity state observation deposit provider base quote base_reserve quote_reserve lp
        supply)
observe_payload state observation
      (liquidity_withdrawn provider base quote base_reserve quote_reserve lp supply) =
    ok (
      observe_liquidity state observation withdraw provider base quote base_reserve quote_reserve lp
        supply)
observe_payload state observation (token_created name symbol uri creator user) = ok state
observe_payload state observation (market_created creator base quote) = ok state

unfoldable pub observe : Collected → NormalizedObservation → Checked Collected
unfolding observe_payload
observe state observation =
    observe_payload (see_key state observation.key) observation observation.payload

-- The main loop.
unfoldable pub observe_all : Collected → List NormalizedObservation → Checked Collected
unfolding observe
observe_all state [] = ok state
observe_all state (observation ∷ rest) = do next ← observe state observation; observe_all next rest
