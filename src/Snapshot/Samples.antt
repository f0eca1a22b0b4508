-- ===== src/Snapshot/Samples.antt =====
-- crates/discovery-engine/src/snapshot.rs: the data of a window snapshot. A set of creators or a map
-- of wallets keeps the order of its keys.
use soldisco.Prelude.{ℕ, String, Option, none, some, List, Bool, true, false}
use soldisco.Prelude.Int.{ℤ}
use soldisco.Domain.{MarketIdentity, ObservationKey, TradeSide}
use soldisco.TreeMap.{TreeMap}
use soldisco.Snapshot.Price.{PriceRatio}
use soldisco.Snapshot.Metrics.{WalletMetrics}

pub data SnapshotCompleteness : Type 0 where
  complete : SnapshotCompleteness
  incomplete : String → SnapshotCompleteness

abbrev pub is_complete : SnapshotCompleteness → Bool
is_complete complete = true
is_complete (incomplete reason_code) = false

-- SnapshotCompleteness::reason_code
abbrev pub completeness_reason : SnapshotCompleteness → Option String
completeness_reason complete = none
completeness_reason (incomplete reason_code) = some reason_code

pub record WalletVolumeShare : Type 0 where
  pub wallet : String
  pub quote_volume_units : ℕ  -- u128
  pub share_bps : ℕ  -- u16

pub record CreatorVolumeShare : Type 0 where
  pub creator_wallets : List String
  pub quote_volume_units : ℕ  -- u128
  pub share_bps : Option ℕ  -- u16

pub record TradeSample : Type 0 where
  pub observation_key : ObservationKey
  pub received_time_unix_ms : ℤ
  pub source_event_time_unix_ms : Option ℤ
  pub side : TradeSide
  pub wallet : String
  pub base_amount_units : ℕ
  pub quote_amount_units : ℕ
  pub base_reserve_units : Option ℕ
  pub quote_reserve_units : Option ℕ

pub data LiquidityDirection : Type 0 where
  deposit withdraw : LiquidityDirection

pub record LiquiditySample : Type 0 where
  pub observation_key : ObservationKey
  pub received_time_unix_ms : ℤ
  pub source_event_time_unix_ms : Option ℤ
  pub direction : LiquidityDirection
  pub provider : String
  pub base_amount_units : ℕ
  pub quote_amount_units : ℕ
  pub base_reserve_units : ℕ
  pub quote_reserve_units : ℕ
  pub lp_token_amount_units : ℕ
  pub lp_token_supply_units : ℕ

pub record ReserveSample : Type 0 where
  pub observation_key : ObservationKey
  pub received_time_unix_ms : ℤ
  pub base_units : Option ℕ
  pub quote_units : Option ℕ

pub record ReserveExtremum : Type 0 where
  pub observation_key : ObservationKey
  pub received_time_unix_ms : ℤ
  pub units : ℕ

pub record ReserveSummary : Type 0 where
  pub first : ReserveSample
  pub latest : ReserveSample
  pub minimum_base : Option ReserveExtremum
  pub maximum_base : Option ReserveExtremum
  pub minimum_quote : Option ReserveExtremum
  pub maximum_quote : Option ReserveExtremum
  pub samples : List ReserveSample

pub record PricePoint : Type 0 where
  pub observation_key : ObservationKey
  pub received_time_unix_ms : ℤ
  pub ratio : PriceRatio

pub record PriceSummary : Type 0 where
  pub first : PricePoint
  pub last : PricePoint
  pub low : PricePoint
  pub high : PricePoint
  pub change_bps : Option ℤ

pub record MarketWindowMetrics : Type 0 where
  pub observations : ℕ
  pub trades : ℕ
  pub buys : ℕ
  pub sells : ℕ
  pub buy_base_units : ℕ
  pub sell_base_units : ℕ
  pub buy_quote_units : ℕ
  pub sell_quote_units : ℕ
  pub unique_traders : ℕ
  pub unique_buyers : ℕ
  pub unique_sellers : ℕ
  pub wallets : TreeMap WalletMetrics
  pub largest_wallet_quote_volume : Option WalletVolumeShare
  pub creator_quote_volume : Option CreatorVolumeShare
  pub first_trade_received_at_unix_ms : Option ℤ
  pub last_trade_received_at_unix_ms : Option ℤ
  pub first_trade_slot : Option ℕ
  pub last_trade_slot : Option ℕ

pub record MarketWindowSnapshot : Type 0 where
  pub market : MarketIdentity
  pub opened_at_unix_ms : ℤ
  pub closes_at_unix_ms : ℤ
  pub completeness : SnapshotCompleteness
  pub observation_keys : List ObservationKey
  pub trade_samples : List TradeSample
  pub liquidity_samples : List LiquiditySample
  pub metrics : MarketWindowMetrics
  pub reserves : Option ReserveSummary
  pub prices : Option PriceSummary
  pub completion_observed : Bool
  pub migration_observed : Bool
  pub completion_observation_keys : List ObservationKey
  pub migration_observation_keys : List ObservationKey
  pub latest_observed_slot : Option ℕ
