-- ===== src/Tests/Snapshots.antt =====
-- The snapshot of crates/discovery-engine/src/snapshot.rs on concrete trades.
use mathlib.Core.List.{Permᴰ}
use soldisco.Prelude.{
  ℕ, ◌≡◌, ◌∙◌, sym, ◌⊎◌, inl, inr, refl, String, Option, some, none, List, [], ◌∷◌, ok, arith, err,
}
use soldisco.Prelude.Int.{pos}
use soldisco.Domain.{
  MarketIdentity, solana_mainnet, pump_bonding_curve, NormalizedObservation, pump, trade, TradeSide,
  buy, sell, confirmed, market_eq, key_eq,
}
use soldisco.TreeMap.{TreeMap}
use soldisco.Snapshot.Samples.{WalletVolumeShare, complete, MarketWindowSnapshot}
use soldisco.Snapshot.Metrics.{
  WalletMetrics, MetricsAccumulator, new_accumulator, or_no_metrics, record_trade,
  total_quote_units,
}
use soldisco.Snapshot.Metrics.Tally.{
  TradeFacts, record_all, totals, tally_from, trades_of, record_all-tally,
}
use soldisco.Snapshot.Metrics.Totality.{IsSound, IsSound-new, record_all_total}
use soldisco.Snapshot.Finish.{largest_from, finish}
use soldisco.Snapshot.Finish.Largest.{IsChoice, largest_from_total}
use soldisco.Prelude.Sort.{sort_by}
use soldisco.Snapshot.Checked.{Checked}
use soldisco.Snapshot.Observe.{observe_all, observe, observe_payload, observe_trade}
use soldisco.Snapshot.Build.{
  build_market_window_snapshot, build_from_sorted, find_duplicate, creators_of, matches_window,
}
use soldisco.Snapshot.Build.Listed.{ListsWindow, build_market_window_snapshot-ListsWindow}
use soldisco.Prelude.Text.{is_blank}
use soldisco.Snapshot.Price.{new_ratio}
use soldisco.Snapshot.Price.Gcd.{greatest_common_divisor}
use soldisco.Snapshot.BasisPoints.{fraction_to_basis_points, fraction_within_basis_point_limit}
use soldisco.Snapshot.ScaledRatio.{checked_scaled_ratio, scaled_proper_fraction}
use soldisco.Snapshot.Summaries.{summarize_prices}
use soldisco.Tests.Decisions.{funded_snapshot}
use soldisco.Snapshot.Build.Deterministic.{snapshot_order_independent}
use soldisco.TreeMap

abbrev alice_buys : TradeFacts
alice_buys = record { side = buy; wallet = "alice"; base_units = 10; quote_units = 300 }

abbrev bob_sells : TradeFacts
bob_sells = record { side = sell; wallet = "bob"; base_units = 4; quote_units = 100 }

abbrev two_trades : List TradeFacts
two_trades = alice_buys ∷ (bob_sells ∷ [])

abbrev alice_metrics : WalletMetrics
alice_metrics = record {
  trades = 1;
  buys = 1;
  sells = 0;
  buy_base_units = 10;
  sell_base_units = 0;
  buy_quote_units = 300;
  sell_quote_units = 0;
}

abbrev bob_metrics : WalletMetrics
bob_metrics = record {
  trades = 1;
  buys = 0;
  sells = 1;
  buy_base_units = 0;
  sell_base_units = 4;
  buy_quote_units = 0;
  sell_quote_units = 100;
}

abbrev two_recorded : MetricsAccumulator
two_recorded = record {
  trades = 2;
  buys = 1;
  sells = 1;
  buy_base_units = 10;
  sell_base_units = 4;
  buy_quote_units = 300;
  sell_quote_units = 100;
  wallets = record { entries = ("alice", alice_metrics) ∷ (("bob", bob_metrics) ∷ []) };
}

record_all-tally_example :
    (totals two_recorded ≡ tally_from (totals new_accumulator) two_trades)
    × ((w : String)
        → or_no_metrics (TreeMap.get w two_recorded.wallets)
          ≡ tally_from
              (or_no_metrics (TreeMap.get w new_accumulator.wallets))
              (trades_of w two_trades))
unfolding record_all record_trade TreeMap.get TreeMap.insert
record_all-tally_example = record_all-tally two_trades new_accumulator two_recorded refl

record_all_total_example :
    (a' : MetricsAccumulator) × (record_all new_accumulator two_trades ≡ ok a') × IsSound a'
record_all_total_example =
    record_all_total two_trades new_accumulator IsSound-new
      ((omega arith, omega arith), ((omega arith, omega arith), tt)) (omega arith)

largest_from_total_example :
    (after : Option WalletVolumeShare) × (largest_from 400 none
        (("alice", alice_metrics) ∷ (("bob", bob_metrics) ∷ []))
      ≡ ok after)
    × IsChoice 400 none (("alice", alice_metrics) ∷ (("bob", bob_metrics) ∷ [])) after
largest_from_total_example =
    largest_from_total 400 (omega arith) (("alice", alice_metrics) ∷ (("bob", bob_metrics) ∷ []))
      none ((omega arith, omega arith), ((omega arith, omega arith), tt)) tt

abbrev mint_market : MarketIdentity
mint_market = record {
  network = solana_mainnet;
  mint = "mint-a";
  venue = pump_bonding_curve;
  market_address = "curve-mint-a";
  quote_mint = some "So11111111111111111111111111111111111111112";
}

abbrev traded_at : ℕ → TradeSide → String → NormalizedObservation
traded_at slot side wallet = record {
  key = record {
    network = solana_mainnet;
    program = pump;
    coordinate = record {
      slot = slot;
      transaction_index = some 0;
      signature = "signature";
      instruction_index = 0;
      event_index = 0;
    };
  };
  commitment = confirmed;
  schema_version = 1;
  decoder_version = "decoder";
  event_kind = "trade";
  market = mint_market;
  source_event_time_unix_ms = none;
  received_time_unix_ms = pos 2000;
  raw_evidence_hash = "hash";
  source_evidence_base64 = "";
  payload = trade side wallet 10 300 (some 1000) (some 30000);
}

abbrev first_trade : NormalizedObservation
first_trade = traded_at 5 buy "alice"

abbrev second_trade : NormalizedObservation
second_trade = traded_at 6 sell "bob"

-- The two observations that are stored.
abbrev StoredTrade : NormalizedObservation → Type 0
StoredTrade a = (a ≡ first_trade) ⊎ (a ≡ second_trade)

stored_identified :
    (a b : NormalizedObservation) → StoredTrade a → StoredTrade b → a.key ≡ b.key → a ≡ b
stored_identified a b (inl p) (inl q) e = p ∙ sym q
stored_identified a b (inr p) (inr q) e = p ∙ sym q
stored_identified a b (inl p) (inr q) e = ground (arith, p, q)
stored_identified a b (inr p) (inl q) e = ground (arith, p, q)

snapshot_order_independent_example :
    build_market_window_snapshot mint_market
      (pos 1000)
      (pos 61000)
      complete
      (first_trade ∷ (second_trade ∷ []))
    ≡ build_market_window_snapshot mint_market
        (pos 1000)
        (pos 61000)
        complete
        (second_trade ∷ (first_trade ∷ []))
snapshot_order_independent_example =
    snapshot_order_independent StoredTrade stored_identified mint_market (pos 1000) (pos 61000)
      complete ((inl refl, refl), ((inr refl, refl), tt)) (Permᴰ.swap refl refl)

abbrev value_or : MarketWindowSnapshot → Checked MarketWindowSnapshot → MarketWindowSnapshot
value_or other (ok s) = s
value_or other (err e) = other

abbrev two_observations : List NormalizedObservation
two_observations = second_trade ∷ (first_trade ∷ [])

-- The snapshot of the two observations.
abbrev built_snapshot : MarketWindowSnapshot
built_snapshot =
    value_or funded_snapshot
      (build_market_window_snapshot mint_market (pos 1000) (pos 61000) complete two_observations)

build_market_window_snapshot-ListsWindow_example :
    ListsWindow mint_market (pos 1000) (pos 61000) two_observations built_snapshot
unfolding build_market_window_snapshot matches_window build_from_sorted find_duplicate creators_of
    observe_all observe observe_payload observe_trade record_trade finish sort_by market_eq key_eq
    is_blank new_ratio TreeMap.get TreeMap.insert total_quote_units fraction_to_basis_points
    checked_scaled_ratio scaled_proper_fraction fraction_within_basis_point_limit summarize_prices
    greatest_common_divisor
build_market_window_snapshot-ListsWindow_example =
    build_market_window_snapshot-ListsWindow mint_market (pos 1000) (pos 61000) complete
      two_observations built_snapshot refl
