-- ===== src/Intake/Targets.antt =====
-- apps/server/src/jobs/intake.rs: what an event discovers and which window it belongs to. A duration is its
-- number of milliseconds.
pub mod Followed
use soldisco.Prelude.{
  ℕ, ◌+◌, ◌-◌, ◌*◌, ◌^◌, String, Option, none, some, List, any, Bool, true, false, ◌&&◌, ltb,
  if◌then◌else◌,
}
use soldisco.Prelude.Int.{ℤ, pos, negsuc, pos_part, neg_part, sub_ℕ, ltb_ℤ, leb_ℤ}
use soldisco.Domain.{Network}
use soldisco.Pump.Model.{PumpEvent, timestamp_of}
use soldisco.Normalization.Pair.{PumpSwapPair, normalize_pump_swap_pair}
use soldisco.Window.Target.{ObservationTarget, pump_mint, pump_swap_pool}

pub data BatchPurpose : Type 0 where
  discovery tracked_activity : BatchPurpose

pub data IntakeDropReason : Type 0 where
  failed_transaction irrelevant malformed_logs stale_discovery : IntakeDropReason

pub record DiscoverySeed : Type 0 where
  pub target : ObservationTarget
  pub mint : String
  pub source_event_time_unix_ms : ℤ

abbrev i64_max : ℤ
i64_max = pos 9223372036854775807

abbrev i64_min : ℤ
i64_min = negsuc 9223372036854775807

-- The nearest i64.
abbrev saturate : ℤ → ℤ
saturate z = if ltb_ℤ i64_max z then i64_max else if ltb_ℤ z i64_min then i64_min else z

abbrev times_1000 : ℤ → ℤ
times_1000 (pos n) = pos (n * 1000)
times_1000 (negsuc n) = negsuc (n * 1000 + 999)

-- i64::checked_mul by 1_000
abbrev checked_times_1000 : ℤ → Option ℤ
checked_times_1000 z =
    if ltb_ℤ i64_max (times_1000 z)
    then none
    else if ltb_ℤ (times_1000 z) i64_min
    then none
    else some (times_1000 z)

abbrev pub saturating_add : ℤ → ℤ → ℤ
saturating_add a b = saturate (sub_ℕ (pos_part a + pos_part b) (neg_part a + neg_part b))

abbrev saturating_sub : ℤ → ℤ → ℤ
saturating_sub a b = saturate (sub_ℕ (pos_part a + neg_part b) (neg_part a + pos_part b))

abbrev max_source_clock_skew : ℕ
max_source_clock_skew = 10000

unfoldable pub is_discovery_event : PumpEvent → Bool
is_discovery_event (PumpEvent.create event) = true
is_discovery_event (PumpEvent.pump_swap_create_pool event) = true
is_discovery_event _ = false

unfoldable pub discovery_seed : PumpEvent → Network → Option DiscoverySeed
discovery_seed (PumpEvent.create event) network = some (record {
  target = pump_mint event.mint;
  mint = event.mint;
  source_event_time_unix_ms = saturate (times_1000 event.timestamp);
})
discovery_seed (PumpEvent.pump_swap_create_pool event) network =
    elim (normalize_pump_swap_pair network event.base_mint event.quote_mint) [
      | none ↦ none
      | some pair ↦ some (record {
        target = pump_swap_pool event.pool;
        mint = pair.token_mint;
        source_event_time_unix_ms = saturate (times_1000 event.timestamp);
      })
    ]
discovery_seed _ network = none

-- i64::try_from(duration.as_millis()).unwrap_or(i64::MAX)
abbrev pub millis_of : ℕ → ℤ
millis_of duration = if ltb 9223372036854775807 duration then i64_max else pos duration

abbrev is_between : ℤ → ℕ → Option ℤ → Bool
is_between now_unix_ms maximum_age none = false
is_between now_unix_ms maximum_age (some event_unix_ms) =
    leb_ℤ (saturating_sub now_unix_ms (millis_of maximum_age)) event_unix_ms
    && leb_ℤ event_unix_ms (saturating_add now_unix_ms (millis_of max_source_clock_skew))

unfoldable pub discovery_event_is_fresh : PumpEvent → ℤ → ℕ → Bool
unfolding is_discovery_event timestamp_of
discovery_event_is_fresh event now_unix_ms maximum_age =
    is_discovery_event event
    && is_between now_unix_ms maximum_age (checked_times_1000 (timestamp_of event))

unfoldable pub event_tracking_target : PumpEvent → Option ObservationTarget
event_tracking_target (PumpEvent.trade event) = some (pump_mint event.mint)
event_tracking_target (PumpEvent.complete event) = some (pump_mint event.mint)
event_tracking_target (PumpEvent.complete_pump_amm_migration event) = some (pump_mint event.mint)
event_tracking_target (PumpEvent.pump_swap_buy event) = some (pump_swap_pool event.pool)
event_tracking_target (PumpEvent.pump_swap_sell event) = some (pump_swap_pool event.pool)
event_tracking_target (PumpEvent.pump_swap_deposit event) = some (pump_swap_pool event.pool)
event_tracking_target (PumpEvent.pump_swap_withdraw event) = some (pump_swap_pool event.pool)
event_tracking_target _ = none
