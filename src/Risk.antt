-- ===== src/Risk.antt =====
-- crates/risk-engine/src/lib.rs: a risk assessment from rule results, and the rule on required evidence.
pub mod Decision
use soldisco.Prelude.{
  String, Option, none, List, [], ◌∷◌, Bool, true, false, ◌||◌, any, if◌then◌else◌,
}
use soldisco.Domain.{AssessmentDecision, pass, reject, unknown, decision_eq, RuleResult, Score}

pub data EvidenceAvailability : Type 0 where
  available missing stale invalid : EvidenceAvailability

pub record RiskAssessment : Type 0 where
  pub decision : AssessmentDecision
  pub risk_score : Option Score
  pub opportunity_score : Option Score
  pub rules : List RuleResult

abbrev pub no_rules : List RuleResult → Bool
no_rules [] = true
no_rules (r ∷ rest) = false

-- The decision that RiskAssessment::from_rules takes.
unfoldable pub decide_rules : List RuleResult → AssessmentDecision
decide_rules rules =
    if any (λ r. decision_eq r.decision reject) rules
    then reject
    else if any (λ r. decision_eq r.decision unknown) rules || no_rules rules
    then unknown
    else pass

-- RiskAssessment::from_rules
unfoldable pub from_rules : List RuleResult → Option Score → Option Score → RiskAssessment
unfolding decide_rules
from_rules rules risk_score opportunity_score = record {
  decision = decide_rules rules;
  risk_score = risk_score;
  opportunity_score = opportunity_score;
  rules = rules;
}

abbrev evidence_decision : EvidenceAvailability → AssessmentDecision
evidence_decision available = pass
evidence_decision missing = unknown
evidence_decision stale = unknown
evidence_decision invalid = reject

abbrev evidence_reason : EvidenceAvailability → String
evidence_reason available = "EVIDENCE_AVAILABLE"
evidence_reason missing = "EVIDENCE_MISSING"
evidence_reason stale = "EVIDENCE_STALE"
evidence_reason invalid = "EVIDENCE_INVALID"

unfoldable pub required_evidence_rule : String → EvidenceAvailability → RuleResult
required_evidence_rule rule_id availability = record {
  rule_id = rule_id;
  rule_version = "1";
  decision = evidence_decision availability;
  reason_code = evidence_reason availability;
  evidence_reference = none;
  observed_slot = none;
}
