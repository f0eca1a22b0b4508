-- ===== src/Snapshot/Finish.antt =====
-- crates/discovery-engine/src/snapshot.rs: `MetricsAccumulator::finish`, the metrics of a window from
-- its recorded trades.
pub mod Largest
use mathlib.Core.Option
use soldisco.Prelude.{
  ℕ, ◌^◌, String, Option, none, some, List, [], ◌∷◌, ok, err, ◌>>=◌, if◌then◌else◌, Bool, true,
  false, ltb, length, retain, map,
}
use soldisco.TreeMap
use soldisco.TreeMap.{TreeMap}
use soldisco.Snapshot.Checked.{Checked, arithmetic_overflow, checked_add, u64_width, u128_width}
use soldisco.Snapshot.BasisPoints.{fraction_to_basis_points}
use soldisco.Snapshot.Metrics.{WalletMetrics, MetricsAccumulator, total_quote_units}
use soldisco.Snapshot.Samples.{
  WalletVolumeShare, CreatorVolumeShare, TradeSample, MarketWindowMetrics,
}

-- u64::try_from(length).map_err(|_| ArithmeticOverflow)
unfoldable pub to_u64 : ℕ → Checked ℕ
to_u64 value = if ltb value (2 ^ u64_width) then ok value else err arithmetic_overflow

-- `largest_wallet_quote_volume.as_ref().is_none_or(|largest| ...)`
abbrev pub exceeds_largest : ℕ → Option WalletVolumeShare → Bool
exceeds_largest quote_volume_units none = true
exceeds_largest quote_volume_units (some largest) =
    ltb largest.quote_volume_units quote_volume_units

-- The loop over the wallets that keeps the largest quote volume.
unfoldable pub largest_from :
    ℕ
    → Option WalletVolumeShare
    → List (String × WalletMetrics)
    → Checked (Option WalletVolumeShare)
largest_from total_quote_volume largest [] = ok largest
largest_from total_quote_volume largest ((wallet, metrics) ∷ rest) = do
  quote_volume_units ← total_quote_units metrics
  next ←
      if exceeds_largest quote_volume_units largest
      then (do
        share_bps ← fraction_to_basis_points quote_volume_units total_quote_volume
        ok (
            some (record {
              wallet = wallet;
              quote_volume_units = quote_volume_units;
              share_bps = share_bps;
            })))
      else ok largest
  largest_from total_quote_volume next rest

-- The loop over the creators that adds up their volumes.
unfoldable pub creator_volume_from : TreeMap WalletMetrics → ℕ → List String → Checked ℕ
creator_volume_from wallets quote_volume_units [] = ok quote_volume_units
creator_volume_from wallets quote_volume_units (creator ∷ rest) = do
  next ← elim (TreeMap.get creator wallets) [
    | some metrics ↦ do
      units ← total_quote_units metrics
      checked_add u128_width quote_volume_units units
    | none ↦ ok quote_volume_units
  ]
  creator_volume_from wallets next rest

-- `(total > 0).then(|| ...).transpose()?`
unfoldable pub creator_share : ℕ → ℕ → Checked (Option ℕ)
creator_share quote_volume_units total_quote_volume =
    if ltb 0 total_quote_volume
    then (do
      share ← fraction_to_basis_points quote_volume_units total_quote_volume
      ok (some share))
    else ok none

unfoldable pub creator_volume :
    TreeMap WalletMetrics → ℕ → List String → Checked (Option CreatorVolumeShare)
unfolding creator_volume_from creator_share
creator_volume wallets total_quote_volume [] = ok none
creator_volume wallets total_quote_volume (first ∷ rest) = do
  quote_volume_units ← creator_volume_from wallets 0 (first ∷ rest)
  share_bps ← creator_share quote_volume_units total_quote_volume
  ok (
      some (record {
        creator_wallets = first ∷ rest;
        quote_volume_units = quote_volume_units;
        share_bps = share_bps;
      }))

-- MetricsAccumulator::finish; the creators are listed in the order of their set
unfoldable pub finish :
    MetricsAccumulator
    → ℕ
    → List String
    → Option TradeSample
    → Option TradeSample
    → Checked MarketWindowMetrics
unfolding to_u64 checked_add largest_from creator_volume
finish self observations creator_wallets first_trade last_trade = do
  total_quote_volume ← checked_add u128_width self.buy_quote_units self.sell_quote_units
  unique_traders ← to_u64 (TreeMap.size self.wallets)
  unique_buyers ← to_u64 (length (retain (λ e. ltb 0 e.1.buys) self.wallets.entries))
  unique_sellers ← to_u64 (length (retain (λ e. ltb 0 e.1.sells) self.wallets.entries))
  largest_wallet_quote_volume ← largest_from total_quote_volume none self.wallets.entries
  creator_quote_volume ← creator_volume self.wallets total_quote_volume creator_wallets
  ok (record {
    observations = observations;
    trades = self.trades;
    buys = self.buys;
    sells = self.sells;
    buy_base_units = self.buy_base_units;
    sell_base_units = self.sell_base_units;
    buy_quote_units = self.buy_quote_units;
    sell_quote_units = self.sell_quote_units;
    unique_traders = unique_traders;
    unique_buyers = unique_buyers;
    unique_sellers = unique_sellers;
    wallets = self.wallets;
    largest_wallet_quote_volume = largest_wallet_quote_volume;
    creator_quote_volume = creator_quote_volume;
    first_trade_received_at_unix_ms = Option.map (λ s. s.received_time_unix_ms) first_trade;
    last_trade_received_at_unix_ms = Option.map (λ s. s.received_time_unix_ms) last_trade;
    first_trade_slot = Option.map (λ s. s.observation_key.slot) first_trade;
    last_trade_slot = Option.map (λ s. s.observation_key.slot) last_trade;
  })
