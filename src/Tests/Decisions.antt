-- ===== src/Tests/Decisions.antt =====
-- The qualification of crates/discovery-engine/src/qualification.rs on a concrete snapshot.
use soldisco.Prelude.{◌≡◌, ◌↔◌, refl, some, none, [], map, ok, arith, false}
use soldisco.Prelude.Int.{pos}
use soldisco.Prelude.Text.{is_blank}
use soldisco.Domain.{solana_mainnet, pump_bonding_curve, pass}
use soldisco.TreeMap
use soldisco.Snapshot.Samples.{MarketWindowMetrics, MarketWindowSnapshot, complete}
use soldisco.Qualification.Policy.{default_policy, wrapped_sol_mint, validate, classify_quote_asset}
use soldisco.Qualification.Rules.{aggregate, rule_name, all_rule_ids}
use soldisco.Qualification.{QualificationAssessment, complete_rules, evaluate_qualification}
use soldisco.Qualification.Decision.{Qualifies, evaluate_qualification-pass}
use soldisco.Qualification.Audit.{
  Follows, IsValid, validate-IsValid, evaluate_qualification_total, evaluate_qualification-rules,
}

abbrev funded_metrics : MarketWindowMetrics
funded_metrics = record {
  observations = 6;
  trades = 6;
  buys = 4;
  sells = 2;
  buy_base_units = 400;
  sell_base_units = 200;
  buy_quote_units = 40_000_000;
  sell_quote_units = 20_000_000;
  unique_traders = 3;
  unique_buyers = 2;
  unique_sellers = 1;
  wallets = TreeMap.empty;
  largest_wallet_quote_volume =
      some (record { wallet = "alice"; quote_volume_units = 30_000_000; share_bps = 5000 });
  creator_quote_volume = none;
  first_trade_received_at_unix_ms = some (pos 1500);
  last_trade_received_at_unix_ms = some (pos 2500);
  first_trade_slot = some 5;
  last_trade_slot = some 9;
}

abbrev pub funded_snapshot : MarketWindowSnapshot
funded_snapshot = record {
  market = record {
    network = solana_mainnet;
    mint = "mint-a";
    venue = pump_bonding_curve;
    market_address = "curve-mint-a";
    quote_mint = some wrapped_sol_mint;
  };
  opened_at_unix_ms = pos 1000;
  closes_at_unix_ms = pos 61000;
  completeness = complete;
  observation_keys = [];
  trade_samples = [];
  liquidity_samples = [];
  metrics = funded_metrics;
  reserves = none;
  prices = none;
  completion_observed = false;
  migration_observed = false;
  completion_observation_keys = [];
  migration_observation_keys = [];
  latest_observed_slot = some 9;
}

abbrev funded_assessment : QualificationAssessment
funded_assessment = record {
  ruleset_version = "initial-qualification-v1";
  decision = pass;
  rules = complete_rules funded_snapshot default_policy 60_000_000;
}

default_policy-IsValid : IsValid default_policy
unfolding validate is_blank
default_policy-IsValid = (validate-IsValid default_policy).0 refl

validate-IsValid_example : (validate default_policy ≡ ok tt) ↔ IsValid default_policy
validate-IsValid_example = validate-IsValid default_policy

evaluate_qualification_total_example :
    (a : QualificationAssessment) × (evaluate_qualification funded_snapshot default_policy ≡ ok a)
evaluate_qualification_total_example =
    evaluate_qualification_total funded_snapshot default_policy default_policy-IsValid (omega arith)

evaluate_qualification-pass_example :
    (funded_assessment.decision ≡ pass) ↔ Qualifies funded_snapshot default_policy
unfolding evaluate_qualification validate complete_rules is_blank aggregate classify_quote_asset
evaluate_qualification-pass_example =
    evaluate_qualification-pass funded_snapshot default_policy funded_assessment refl

evaluate_qualification-rules_example :
    (map (λ r. r.rule_id) funded_assessment.rules ≡ map rule_name all_rule_ids)
    × Follows funded_assessment.decision funded_assessment.rules
unfolding evaluate_qualification validate complete_rules is_blank aggregate classify_quote_asset
evaluate_qualification-rules_example =
    evaluate_qualification-rules funded_snapshot default_policy funded_assessment refl
