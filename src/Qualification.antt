-- ===== src/Qualification.antt =====
-- crates/discovery-engine/src/qualification.rs: the activity rules of one completed snapshot.
pub mod Policy
pub mod Rules
pub mod Decision
pub mod Audit
use Prim.Native.String.{◌++◌ as concat_text}
use soldisco.Prelude.{
  ℕ, String, Option, none, some, List, [], ◌∷◌, map, Bool, ◌||◌, ◌&&◌, ok, err, Result, ◌>>=◌, ◌>>◌,
  any, leb, if◌then◌else◌, not, true, false,
}
use soldisco.Prelude.Display.{show_ℕ, show_ℤ}
use soldisco.Domain.{
  AssessmentDecision, pass, reject, unknown, decision_eq, RuleResult, network_eq, solana_mainnet,
}
use soldisco.Snapshot.Samples.{
  MarketWindowSnapshot, WalletVolumeShare, is_complete, completeness_reason,
}
use soldisco.Snapshot.Checked.{Checked, checked_add, u128_width}
use Policy.{
  QualificationPolicy, QualificationPolicyError, QuoteAssetClass, native, stable, unsupported,
  validate, classify_quote_asset, snapshot_error,
}
use Rules.{
  QualificationRuleId, complete_window, supported_quote_asset, minimum_trades,
  minimum_unique_traders, minimum_buys, minimum_sells, minimum_quote_volume,
  maximum_wallet_concentration, rule, minimum_rule, all_rule_ids, aggregate,
}

pub record QualificationAssessment : Type 0 where
  pub ruleset_version : String
  pub decision : AssessmentDecision
  pub rules : List RuleResult

unfoldable pub window_evidence : MarketWindowSnapshot → String
unfolding show_ℕ show_ℤ
window_evidence snapshot = concat_text "market=" (
    concat_text snapshot.market.market_address (
      concat_text ";opened_at_unix_ms=" (
        concat_text (show_ℤ snapshot.opened_at_unix_ms) (
          concat_text ";closes_at_unix_ms=" (
            concat_text (show_ℤ snapshot.closes_at_unix_ms)
              (concat_text ";observations=" (show_ℕ snapshot.metrics.observations)))))))

-- `reason_code().unwrap_or("WINDOW_INCOMPLETE")`
abbrev pub incomplete_reason : Option String → String
incomplete_reason none = "WINDOW_INCOMPLETE"
incomplete_reason (some reason) = reason

abbrev or_none_text : Option String → String
or_none_text none = "NONE"
or_none_text (some mint) = mint

unfoldable pub quote_asset_rule : QuoteAssetClass → MarketWindowSnapshot → RuleResult
unfolding rule
quote_asset_rule native snapshot =
    rule supported_quote_asset pass "SUPPORTED_NATIVE_QUOTE_ASSET" snapshot.market.quote_mint
      snapshot.latest_observed_slot
quote_asset_rule stable snapshot =
    rule supported_quote_asset pass "SUPPORTED_STABLE_QUOTE_ASSET" snapshot.market.quote_mint
      snapshot.latest_observed_slot
quote_asset_rule unsupported snapshot =
    rule supported_quote_asset reject "UNSUPPORTED_QUOTE_ASSET"
      (some (or_none_text snapshot.market.quote_mint)) snapshot.latest_observed_slot

unfoldable pub quote_volume_rule : QuoteAssetClass → ℕ → QualificationPolicy → Option ℕ → RuleResult
unfolding rule minimum_rule
quote_volume_rule native total policy slot =
    minimum_rule minimum_quote_volume total policy.minimum_native_quote_volume_units slot
quote_volume_rule stable total policy slot =
    minimum_rule minimum_quote_volume total policy.minimum_stable_quote_volume_units slot
quote_volume_rule unsupported total policy slot =
    rule minimum_quote_volume unknown "QUOTE_VOLUME_THRESHOLD_UNAVAILABLE"
      (some (concat_text "observed_units=" (show_ℕ total))) slot

unfoldable pub concentration_rule :
    Option WalletVolumeShare → ℕ → QualificationPolicy → Option ℕ → RuleResult
unfolding rule
concentration_rule (some largest) total policy slot =
    let maximum = policy.maximum_single_wallet_quote_volume_bps in
    let passes = leb largest.share_bps maximum in
    rule maximum_wallet_concentration (if passes then pass else reject)
      (if passes then "WALLET_CONCENTRATION_WITHIN_LIMIT" else "WALLET_CONCENTRATION_EXCEEDS_LIMIT")
      (some (
        concat_text "wallet=" (
          concat_text largest.wallet (
            concat_text ";actual_bps=" (
              concat_text (show_ℕ largest.share_bps)
                (concat_text ";maximum_bps=" (show_ℕ maximum)))))))
      slot
concentration_rule none total policy slot =
    rule maximum_wallet_concentration unknown "WALLET_CONCENTRATION_UNAVAILABLE"
      (some (concat_text "observed_quote_units=" (show_ℕ total))) slot

-- The rules of a complete window, in the order in which the source pushes them.
unfoldable pub complete_rules : MarketWindowSnapshot → QualificationPolicy → ℕ → List RuleResult
unfolding quote_asset_rule quote_volume_rule concentration_rule
complete_rules snapshot policy total_quote_volume =
    let quote_asset = classify_quote_asset snapshot.market in
    let slot = snapshot.latest_observed_slot in
    rule complete_window pass "WINDOW_COMPLETE" (some (window_evidence snapshot)) slot
    ∷ quote_asset_rule quote_asset snapshot
    ∷ minimum_rule minimum_trades snapshot.metrics.trades policy.minimum_trades slot
    ∷ minimum_rule minimum_unique_traders snapshot.metrics.unique_traders
        policy.minimum_unique_traders slot
    ∷ minimum_rule minimum_buys snapshot.metrics.buys policy.minimum_buys slot
    ∷ minimum_rule minimum_sells snapshot.metrics.sells policy.minimum_sells slot
    ∷ quote_volume_rule quote_asset total_quote_volume policy slot
    ∷ concentration_rule snapshot.metrics.largest_wallet_quote_volume total_quote_volume policy slot
    ∷ []

-- `?` on a SnapshotError
abbrev pub from_snapshot {ℓ} : {A : Type ℓ} → Checked A → Result QualificationPolicyError A
from_snapshot (ok a) = ok a
from_snapshot (err e) = err (snapshot_error e)

unfoldable pub incomplete_rules : MarketWindowSnapshot → List RuleResult
incomplete_rules snapshot =
    map
      (λ rule_id.
        rule rule_id unknown (incomplete_reason (completeness_reason snapshot.completeness))
          (some (window_evidence snapshot)) snapshot.latest_observed_slot)
      all_rule_ids

unfoldable pub evaluate_qualification :
    MarketWindowSnapshot
    → QualificationPolicy
    → Result QualificationPolicyError QualificationAssessment
unfolding checked_add
evaluate_qualification snapshot policy = do
  validate policy
  if is_complete snapshot.completeness
      then (do
        total_quote_volume ← from_snapshot (
            checked_add u128_width snapshot.metrics.buy_quote_units
              snapshot.metrics.sell_quote_units)
        let rules = complete_rules snapshot policy total_quote_volume
        ok (record {
          ruleset_version = policy.ruleset_version;
          decision = aggregate rules;
          rules = rules;
        }))
      else ok (record {
        ruleset_version = policy.ruleset_version;
        decision = unknown;
        rules = incomplete_rules snapshot;
      })
