-- ===== src/Qualification/Rules.antt =====
-- crates/discovery-engine/src/qualification.rs: rule identifiers, single rules and their aggregation.
use Prim.Native.String.{◌++◌ as concat_text}
use soldisco.Prelude.{
  ℕ, String, Option, some, List, [], ◌∷◌, Bool, true, false, any, leb, if◌then◌else◌,
}
use soldisco.Prelude.Display.{show_ℕ}
use soldisco.Domain.{AssessmentDecision, pass, reject, unknown, decision_eq, RuleResult}

pub data QualificationRuleId : Type 0 where
  complete_window supported_quote_asset minimum_trades minimum_unique_traders : QualificationRuleId
  minimum_buys minimum_sells minimum_quote_volume maximum_wallet_concentration : QualificationRuleId

-- QualificationRuleId::as_str
unfoldable pub rule_name : QualificationRuleId → String
rule_name complete_window = "qualification.window-complete"
rule_name supported_quote_asset = "qualification.supported-quote-asset"
rule_name minimum_trades = "qualification.minimum-trades"
rule_name minimum_unique_traders = "qualification.minimum-unique-traders"
rule_name minimum_buys = "qualification.minimum-buys"
rule_name minimum_sells = "qualification.minimum-sells"
rule_name minimum_quote_volume = "qualification.minimum-quote-volume"
rule_name maximum_wallet_concentration = "qualification.maximum-single-wallet-quote-volume"

abbrev pub all_rule_ids : List QualificationRuleId
all_rule_ids =
    complete_window ∷ supported_quote_asset ∷ minimum_trades ∷ minimum_unique_traders ∷ minimum_buys
    ∷ minimum_sells ∷ minimum_quote_volume ∷ maximum_wallet_concentration ∷ []

unfoldable pub rule :
    QualificationRuleId → AssessmentDecision → String → Option String → Option ℕ → RuleResult
rule rule_id decision reason_code evidence_reference observed_slot = record {
  rule_id = rule_name rule_id;
  rule_version = "1";
  decision = decision;
  reason_code = reason_code;
  evidence_reference = evidence_reference;
  observed_slot = observed_slot;
}

unfoldable pub minimum_reason_code : QualificationRuleId → Bool → String
minimum_reason_code minimum_trades true = "MINIMUM_TRADES_MET"
minimum_reason_code minimum_trades false = "TRADES_BELOW_MINIMUM"
minimum_reason_code minimum_unique_traders true = "MINIMUM_UNIQUE_TRADERS_MET"
minimum_reason_code minimum_unique_traders false = "UNIQUE_TRADERS_BELOW_MINIMUM"
minimum_reason_code minimum_buys true = "MINIMUM_BUYS_MET"
minimum_reason_code minimum_buys false = "BUYS_BELOW_MINIMUM"
minimum_reason_code minimum_sells true = "MINIMUM_SELLS_MET"
minimum_reason_code minimum_sells false = "SELLS_BELOW_MINIMUM"
minimum_reason_code minimum_quote_volume true = "MINIMUM_QUOTE_VOLUME_MET"
minimum_reason_code minimum_quote_volume false = "QUOTE_VOLUME_BELOW_MINIMUM"
minimum_reason_code _ true = "MINIMUM_MET"
minimum_reason_code _ false = "BELOW_MINIMUM"

unfoldable pub minimum_rule : QualificationRuleId → ℕ → ℕ → Option ℕ → RuleResult
unfolding rule minimum_reason_code show_ℕ
minimum_rule rule_id actual minimum observed_slot =
    let passes = leb minimum actual in
    rule rule_id (if passes then pass else reject) (minimum_reason_code rule_id passes)
      (some (
        concat_text "actual="
          (concat_text (show_ℕ actual) (concat_text ";minimum=" (show_ℕ minimum)))))
      observed_slot

unfoldable pub aggregate : List RuleResult → AssessmentDecision
aggregate rules =
    if any (λ r. decision_eq r.decision reject) rules
    then reject
    else if any (λ r. decision_eq r.decision unknown) rules
    then unknown
    else pass
