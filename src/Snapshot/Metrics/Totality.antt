-- ===== src/Snapshot/Metrics/Totality.antt =====
-- Recording u64 amounts never overflows before the 64-bit count of the trades does.
use soldisco.Prelude.{
  ℕ, ◌+◌, ◌*◌, ◌≤◌, ◌<◌, ◌≡◌, refl, sym, ap, ◌∙◌, String, Option, none, some, List, [], ◌∷◌, length,
  All, ok, if◌then◌else◌, arith, Bool-cases, inl, inr, eq_iff,
}
use text.Mathlib.Text.{◌==◌}
use soldisco.Domain.{TradeSide, buy, sell}
use soldisco.TreeMap
use soldisco.TreeMap.{TreeMap, IsAscending}
use soldisco.TreeMap.Laws.{get-insert, insert-IsAscending, sum_by-insert, sum_by, measure_of}
use soldisco.Snapshot.Checked.{Checked, checked_add-eq-ok, u64_width}
use soldisco.Snapshot.Metrics.{
  WalletMetrics, record_wallet, MetricsAccumulator, new_accumulator, or_no_metrics, record_totals,
  record_trade,
}
use soldisco.Snapshot.Metrics.Tally.{TradeFacts, add_trade, totals, record_all}

abbrev pub max_u64 : ℕ
max_u64 = 18446744073709551615

-- The sums of n trades of u64 amounts are bounded by n times the largest amount.
pub record IsBounded (m : WalletMetrics) : Type 0 where
  pub buys_le : m.buys ≤ m.trades
  pub sells_le : m.sells ≤ m.trades
  pub buy_base_le : m.buy_base_units ≤ m.trades * max_u64
  pub sell_base_le : m.sell_base_units ≤ m.trades * max_u64
  pub volume_le : m.buy_quote_units + m.sell_quote_units ≤ m.trades * max_u64

abbrev pub volume : WalletMetrics → ℕ
volume m = m.buy_quote_units + m.sell_quote_units

pub record IsSound (a : MetricsAccumulator) : Type 0 where
  pub bounded : IsBounded (totals a)
  pub wallet_bounded : (w : String) → IsBounded (or_no_metrics (TreeMap.get w a.wallets))
  pub wallet_le : (w : String) → (or_no_metrics (TreeMap.get w a.wallets)).trades ≤ a.trades
  pub ascending : IsAscending a.wallets.entries
  pub volumes : sum_by volume a.wallets.entries ≡ a.buy_quote_units + a.sell_quote_units

pub IsSound-new : IsSound new_accumulator
unfolding TreeMap.get
IsSound-new = record {
  bounded = omega arith;
  wallet_bounded = λ w. omega arith;
  wallet_le = λ w. omega arith;
  ascending = tt;
  volumes = refl;
}

add_trade-IsBounded :
    (m : WalletMetrics) (side : TradeSide) (base quote : ℕ)
    → base ≤ max_u64
    → quote ≤ max_u64
    → IsBounded m
    → IsBounded (add_trade m side base quote)
add_trade-IsBounded m buy base quote hb hq v = omega arith
add_trade-IsBounded m sell base quote hb hq v = omega arith

volume-add_trade :
    (m : WalletMetrics) (side : TradeSide) (base quote : ℕ)
    → volume (add_trade m side base quote) ≡ volume m + quote
volume-add_trade m buy base quote = omega arith
volume-add_trade m sell base quote = omega arith

trades-add_trade :
    (m : WalletMetrics) (side : TradeSide) (base quote : ℕ)
    → (add_trade m side base quote).trades ≡ m.trades + 1
trades-add_trade m buy base quote = refl
trades-add_trade m sell base quote = refl

record_wallet-eq-ok :
    (m : WalletMetrics) (side : TradeSide) (base quote : ℕ)
    → base ≤ max_u64
    → quote ≤ max_u64
    → m.trades < max_u64
    → IsBounded m
    → record_wallet m side base quote ≡ ok (add_trade m side base quote)
unfolding record_wallet
record_wallet-eq-ok m buy base quote hb hq room v = ground arith
record_wallet-eq-ok m sell base quote hb hq room v = ground arith

-- The totals after one more trade, with the wallets as given.
abbrev next_totals :
    MetricsAccumulator → TradeSide → ℕ → ℕ → TreeMap WalletMetrics → MetricsAccumulator
next_totals a buy base quote wallets = record a {
  trades = a.trades + 1;
  buys = a.buys + 1;
  buy_base_units = a.buy_base_units + base;
  buy_quote_units = a.buy_quote_units + quote;
  wallets = wallets;
}
next_totals a sell base quote wallets = record a {
  trades = a.trades + 1;
  sells = a.sells + 1;
  sell_base_units = a.sell_base_units + base;
  sell_quote_units = a.sell_quote_units + quote;
  wallets = wallets;
}

record_totals-eq-ok :
    (a : MetricsAccumulator) (side : TradeSide) (base quote : ℕ)
    → base ≤ max_u64
    → quote ≤ max_u64
    → a.trades < max_u64
    → IsBounded (totals a)
    → record_totals a side (a.trades + 1) base quote ≡ ok (next_totals a side base quote a.wallets)
unfolding record_totals
record_totals-eq-ok a buy base quote hb hq room v = ground arith
record_totals-eq-ok a sell base quote hb hq room v = ground arith

module _ (a : MetricsAccumulator) (t : TradeFacts) (v : IsSound a) (room : a.trades < max_u64) where
  abbrev old : WalletMetrics
  old = or_no_metrics (TreeMap.get t.wallet a.wallets)

  abbrev new : WalletMetrics
  new = add_trade old t.side t.base_units t.quote_units

  abbrev after : MetricsAccumulator
  after = next_totals a t.side t.base_units t.quote_units (TreeMap.insert t.wallet new a.wallets)

  record_trade-eq-ok :
      t.base_units ≤ max_u64
      → t.quote_units ≤ max_u64
      → record_trade a t.side t.wallet t.base_units t.quote_units ≡ ok after
  unfolding record_trade
  record_trade-eq-ok hb hq =
      rw
        (
          checked_add-eq-ok u64_width a.trades 1 (omega arith),
          record_wallet-eq-ok old t.side t.base_units t.quote_units hb hq
              (omega (arith, v.wallet_le t.wallet)) (v.wallet_bounded t.wallet),
          record_totals-eq-ok a t.side t.base_units t.quote_units hb hq room v.bounded,
        )
        (same t.side)
    where
      same :
          (side : TradeSide)
          → ◌≡◌ {A = Checked MetricsAccumulator}
              (ok (record (next_totals a side t.base_units t.quote_units a.wallets) {
                wallets = TreeMap.insert t.wallet new a.wallets;
              }))
              (ok (
                next_totals a side t.base_units t.quote_units
                  (TreeMap.insert t.wallet new a.wallets)))
      same buy = refl
      same sell = refl

  totals-after : totals after ≡ add_trade (totals a) t.side t.base_units t.quote_units
  totals-after = by_side t.side
    where
      by_side :
          (side : TradeSide)
          → totals (
              next_totals a side t.base_units t.quote_units (TreeMap.insert t.wallet new a.wallets))
            ≡ add_trade (totals a) side t.base_units t.quote_units
      by_side buy = refl
      by_side sell = refl

  wallets-after : after.wallets ≡ TreeMap.insert t.wallet new a.wallets
  wallets-after = by_side t.side
    where
      by_side :
          (side : TradeSide)
          → (next_totals a side t.base_units t.quote_units
              (TreeMap.insert t.wallet new a.wallets)).wallets
            ≡ TreeMap.insert t.wallet new a.wallets
      by_side buy = refl
      by_side sell = refl

  trades-after : after.trades ≡ a.trades + 1
  trades-after =
      ap (λ m. m.trades) totals-after
      ∙ trades-add_trade (totals a) t.side t.base_units t.quote_units

  wallet-after :
      (w : String)
      → or_no_metrics (TreeMap.get w after.wallets)
        ≡ (if w == t.wallet then new else or_no_metrics (TreeMap.get w a.wallets))
  wallet-after w =
      rw wallets-after (ground (arith, get-insert t.wallet w new a.wallets, eq_iff w t.wallet))

  volumes-after :
      sum_by volume (TreeMap.insert t.wallet new a.wallets).entries
      ≡ a.buy_quote_units + a.sell_quote_units + t.quote_units
  volumes-after = omega (
    arith,
    sum_by-insert volume t.wallet new a.wallets v.ascending,
    v.volumes,
    volume-add_trade old t.side t.base_units t.quote_units,
    measured (TreeMap.get t.wallet a.wallets),
  )
    where
      measured : (o : Option WalletMetrics) → measure_of volume o ≡ volume (or_no_metrics o)
      measured none = refl
      measured (some m) = refl

  module _ (hb : t.base_units ≤ max_u64) (hq : t.quote_units ≤ max_u64) where
    after-IsSound : IsSound after
    after-IsSound = record {
      bounded = rw totals-after (add_trade-IsBounded (totals a) t.side _ _ hb hq v.bounded);
      wallet_bounded = λ w. rw (wallet-after w) (elim (Bool-cases (w == t.wallet)) [
        | inl same ↦ rw same (add_trade-IsBounded old t.side _ _ hb hq (v.wallet_bounded t.wallet))
        | inr other ↦ rw other (v.wallet_bounded w)
      ]);
      wallet_le = λ w.
          rw (wallet-after w, trades-after)
            (elim (Bool-cases (w == t.wallet)) [
              | inl same ↦ rw same (
                  omega (
                    arith,
                    v.wallet_le t.wallet,
                    trades-add_trade old t.side t.base_units t.quote_units,
                  ))
              | inr other ↦ rw other (omega (arith, v.wallet_le w))
            ]);
      ascending = rw wallets-after (insert-IsAscending t.wallet new a.wallets v.ascending);
      volumes = rw wallets-after (
          volumes-after
          ∙ sym (
              ap volume totals-after
              ∙ volume-add_trade (totals a) t.side t.base_units t.quote_units));
    }

abbrev pub IsWord : TradeFacts → Type 0
IsWord t = (t.base_units ≤ max_u64) × (t.quote_units ≤ max_u64)

-- From a sound state, fewer than 2^64 trades of u64 amounts are all recorded, and the state stays
-- sound: the wallets' volumes still add up to the total volume.
pub record_all_total :
    (ts : List TradeFacts) (a : MetricsAccumulator)
    → IsSound a
    → All IsWord ts
    → a.trades + length ts ≤ max_u64
    → (a' : MetricsAccumulator) × (record_all a ts ≡ ok a') × IsSound a'
unfolding record_all
record_all_total [] a v words room = (a, refl, v)
record_all_total (t ∷ ts) a v words room =
    let small : a.trades < max_u64 = omega arith in
    let (a', rest, v') =
      record_all_total ts (after a t v small) (after-IsSound a t v small words.0.0 words.0.1)
        words.1 (omega (arith, trades-after a t v small)) in
    (a', rw (record_trade-eq-ok a t v small words.0.0 words.0.1) rest, v')
