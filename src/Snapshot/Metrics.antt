-- ===== src/Snapshot/Metrics.antt =====
-- crates/discovery-engine/src/snapshot.rs: the trade metrics of a window and of each wallet, and
-- their checked accumulation.
pub mod Tally
pub mod Totality
use soldisco.Prelude.{ℕ, ◌+◌, String, Option, none, some, ok, err, ◌>>=◌, if◌then◌else◌}
use soldisco.Domain.{TradeSide, buy, sell}
use soldisco.TreeMap
use soldisco.TreeMap.{TreeMap}
use soldisco.Snapshot.Checked.{Checked, checked_add, u64_width, u128_width}

pub record WalletMetrics : Type 0 where
  pub trades : ℕ  -- u64
  pub buys : ℕ  -- u64
  pub sells : ℕ  -- u64
  pub buy_base_units : ℕ  -- u128
  pub sell_base_units : ℕ  -- u128
  pub buy_quote_units : ℕ  -- u128
  pub sell_quote_units : ℕ  -- u128

abbrev pub no_metrics : WalletMetrics
no_metrics = record {
  trades = 0;
  buys = 0;
  sells = 0;
  buy_base_units = 0;
  sell_base_units = 0;
  buy_quote_units = 0;
  sell_quote_units = 0;
}

-- WalletMetrics::checked_record
unfoldable pub record_wallet : WalletMetrics → TradeSide → ℕ → ℕ → Checked WalletMetrics
unfolding checked_add
record_wallet self buy base_units quote_units = do
  trades ← checked_add u64_width self.trades 1
  buys ← checked_add u64_width self.buys 1
  buy_base_units ← checked_add u128_width self.buy_base_units base_units
  buy_quote_units ← checked_add u128_width self.buy_quote_units quote_units
  ok (record self {
    trades = trades;
    buys = buys;
    buy_base_units = buy_base_units;
    buy_quote_units = buy_quote_units;
  })
record_wallet self sell base_units quote_units = do
  trades ← checked_add u64_width self.trades 1
  sells ← checked_add u64_width self.sells 1
  sell_base_units ← checked_add u128_width self.sell_base_units base_units
  sell_quote_units ← checked_add u128_width self.sell_quote_units quote_units
  ok (record self {
    trades = trades;
    sells = sells;
    sell_base_units = sell_base_units;
    sell_quote_units = sell_quote_units;
  })

-- WalletMetrics::total_quote_units and MarketWindowMetrics::total_quote_volume_units
unfoldable pub total_quote_units : WalletMetrics → Checked ℕ
total_quote_units self = checked_add u128_width self.buy_quote_units self.sell_quote_units

pub record MetricsAccumulator : Type 0 where
  pub trades : ℕ  -- u64
  pub buys : ℕ  -- u64
  pub sells : ℕ  -- u64
  pub buy_base_units : ℕ  -- u128
  pub sell_base_units : ℕ  -- u128
  pub buy_quote_units : ℕ  -- u128
  pub sell_quote_units : ℕ  -- u128
  pub wallets : TreeMap WalletMetrics

abbrev pub new_accumulator : MetricsAccumulator
new_accumulator = record {
  trades = 0;
  buys = 0;
  sells = 0;
  buy_base_units = 0;
  sell_base_units = 0;
  buy_quote_units = 0;
  sell_quote_units = 0;
  wallets = TreeMap.empty;
}

-- Option::unwrap_or_default
abbrev pub or_no_metrics : Option WalletMetrics → WalletMetrics
or_no_metrics none = no_metrics
or_no_metrics (some m) = m

-- The totals that MetricsAccumulator::checked_record computes before it assigns any of them.
record_totals : MetricsAccumulator → TradeSide → ℕ → ℕ → ℕ → Checked MetricsAccumulator
unfolding checked_add
record_totals self buy next_trades base_units quote_units = do
  buys ← checked_add u64_width self.buys 1
  buy_base_units ← checked_add u128_width self.buy_base_units base_units
  buy_quote_units ← checked_add u128_width self.buy_quote_units quote_units
  ok (record self {
    trades = next_trades;
    buys = buys;
    buy_base_units = buy_base_units;
    buy_quote_units = buy_quote_units;
  })
record_totals self sell next_trades base_units quote_units = do
  sells ← checked_add u64_width self.sells 1
  sell_base_units ← checked_add u128_width self.sell_base_units base_units
  sell_quote_units ← checked_add u128_width self.sell_quote_units quote_units
  ok (record self {
    trades = next_trades;
    sells = sells;
    sell_base_units = sell_base_units;
    sell_quote_units = sell_quote_units;
  })

-- MetricsAccumulator::checked_record
unfoldable pub record_trade :
    MetricsAccumulator → TradeSide → String → ℕ → ℕ → Checked MetricsAccumulator
unfolding record_wallet record_totals
record_trade self side wallet base_units quote_units = do
  next_trades ← checked_add u64_width self.trades 1
  let current_wallet = or_no_metrics (TreeMap.get wallet self.wallets)
  next_wallet ← record_wallet current_wallet side base_units quote_units
  next ← record_totals self side next_trades base_units quote_units
  ok (record next { wallets = TreeMap.insert wallet next_wallet self.wallets })
