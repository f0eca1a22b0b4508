-- ===== src/Snapshot/Metrics/Tally.antt =====
-- The accumulated metrics are the sums over the recorded trades.
use soldisco.Prelude.{
  >>=-eq-ok, ℕ, ◌+◌, ◌≡◌, sym, ap, ◌∙◌, String, List, [], ◌∷◌, retain, ok, ◌>>=◌, if◌then◌else◌,
  arith, Bool-cases, inl, inr, eq_iff,
}
use text.Mathlib.Text.{◌==◌}
use soldisco.Domain.{TradeSide, buy, sell}
use soldisco.TreeMap
use soldisco.TreeMap.{TreeMap, IsAscending}
use soldisco.TreeMap.Laws.{get-insert}
use soldisco.Snapshot.Checked.{Checked}
use soldisco.Snapshot.Metrics.{WalletMetrics, MetricsAccumulator, or_no_metrics, record_trade}

-- What one trade contributes.
pub record TradeFacts : Type 0 where
  pub side : TradeSide
  pub wallet : String
  pub base_units : ℕ
  pub quote_units : ℕ

-- The unchecked sum of a trade and of metrics, by the source's fields.
abbrev pub add_trade : WalletMetrics → TradeSide → ℕ → ℕ → WalletMetrics
add_trade m buy base quote = record m {
  trades = m.trades + 1;
  buys = m.buys + 1;
  buy_base_units = m.buy_base_units + base;
  buy_quote_units = m.buy_quote_units + quote;
}
add_trade m sell base quote = record m {
  trades = m.trades + 1;
  sells = m.sells + 1;
  sell_base_units = m.sell_base_units + base;
  sell_quote_units = m.sell_quote_units + quote;
}

-- The specification: the trades counted and summed one by one, with no width.
pub tally_from : WalletMetrics → List TradeFacts → WalletMetrics
tally_from m [] = m
tally_from m (t ∷ ts) = tally_from (add_trade m t.side t.base_units t.quote_units) ts

abbrev pub totals : MetricsAccumulator → WalletMetrics
totals a = record {
  trades = a.trades;
  buys = a.buys;
  sells = a.sells;
  buy_base_units = a.buy_base_units;
  sell_base_units = a.sell_base_units;
  buy_quote_units = a.buy_quote_units;
  sell_quote_units = a.sell_quote_units;
}

-- The loop of `build_market_window_snapshot` over its trades.
unfoldable pub record_all : MetricsAccumulator → List TradeFacts → Checked MetricsAccumulator
unfolding record_trade
record_all a [] = ok a
record_all a (t ∷ ts) = do
  a' ← record_trade a t.side t.wallet t.base_units t.quote_units
  record_all a' ts

-- A recorded trade is added to the totals.
pub totals-record_trade :
    (a a' : MetricsAccumulator) (side : TradeSide) (w : String) (base quote : ℕ)
    → record_trade a side w base quote ≡ ok a'
    → totals a' ≡ add_trade (totals a) side base quote
unfolding record_trade
totals-record_trade a a' side w base quote h = ground arith

pub wallets-record_trade :
    (a a' : MetricsAccumulator) (side : TradeSide) (w : String) (base quote : ℕ)
    → record_trade a side w base quote ≡ ok a'
    → a'.wallets
      ≡ TreeMap.insert w
          (add_trade (or_no_metrics (TreeMap.get w a.wallets)) side base quote)
          a.wallets
unfolding record_trade
wallets-record_trade a a' side w base quote h = ground arith

-- A wallet's metrics change by the trade if it is the trade's wallet, and not otherwise.
pub wallet-record_trade :
    (a a' : MetricsAccumulator) (t : TradeFacts) (w : String)
    → record_trade a t.side t.wallet t.base_units t.quote_units ≡ ok a'
    → or_no_metrics (TreeMap.get w a'.wallets) ≡ (
        if w == t.wallet
        then add_trade (or_no_metrics (TreeMap.get w a.wallets)) t.side t.base_units t.quote_units
        else or_no_metrics (TreeMap.get w a.wallets))
wallet-record_trade a a' t w h = ground (
  arith,
  wallets-record_trade a a' t.side t.wallet t.base_units t.quote_units h,
  get-insert t.wallet w
      (add_trade (or_no_metrics (TreeMap.get t.wallet a.wallets)) t.side t.base_units t.quote_units)
      a.wallets,
  eq_iff w t.wallet,
)

abbrev pub trades_of : String → List TradeFacts → List TradeFacts
trades_of w ts = retain (λ t. w == t.wallet) ts

tally_from-trades_of :
    (w : String) (m : WalletMetrics) (t : TradeFacts) (ts : List TradeFacts)
    → tally_from
        (if w == t.wallet then add_trade m t.side t.base_units t.quote_units else m)
        (trades_of w ts)
      ≡ tally_from m (trades_of w (t ∷ ts))
unfolding tally_from
tally_from-trades_of w m t ts = elim (Bool-cases (w == t.wallet)) [
  | inl same ↦ rw same
  | inr other ↦ rw other
]

-- Whatever is recorded from a state on, the totals are the tally of all trades, and each wallet's
-- metrics are the tally of its own trades.
pub record_all-tally :
    (ts : List TradeFacts) (a a' : MetricsAccumulator)
    → record_all a ts ≡ ok a'
    → (totals a' ≡ tally_from (totals a) ts)
      × ((w : String)
          → or_no_metrics (TreeMap.get w a'.wallets)
            ≡ tally_from (or_no_metrics (TreeMap.get w a.wallets)) (trades_of w ts))
unfolding record_all tally_from
record_all-tally [] a a' h =
    let e : a ≡ a' = ground arith in
    (ap totals (sym e), λ w. ap (λ b. or_no_metrics (TreeMap.get w b.wallets)) (sym e))
record_all-tally (t ∷ ts) a a' h =
    let (b, first, rest) =
      >>=-eq-ok (record_trade a t.side t.wallet t.base_units t.quote_units) (λ b. record_all b ts)
        h in
    let (sums, wallets) = record_all-tally ts b a' rest in
    (
      sums
          ∙ ap (λ m. tally_from m ts)
              (totals-record_trade a b t.side t.wallet t.base_units t.quote_units first),
      λ w.
          wallets w
          ∙ ap (λ m. tally_from m (trades_of w ts)) (wallet-record_trade a b t w first)
          ∙ tally_from-trades_of w (or_no_metrics (TreeMap.get w a.wallets)) t ts,
    )
