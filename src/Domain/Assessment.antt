-- ===== src/Domain/Assessment.antt =====
-- crates/domain/src/assessment.rs and score.rs: decisions, rule results and bounded scores.
use soldisco.Prelude.{
  ℕ, String, Option, none, Bool, true, false, Result, ok, err, leb, if◌then◌else◌,
}

pub data AssessmentDecision : Type 0 where
  pass reject unknown : AssessmentDecision

abbrev pub decision_eq : AssessmentDecision → AssessmentDecision → Bool
decision_eq pass pass = true
decision_eq reject reject = true
decision_eq unknown unknown = true
decision_eq _ _ = false

pub record RuleResult : Type 0 where
  pub rule_id : String
  pub rule_version : String
  pub decision : AssessmentDecision
  pub reason_code : String
  pub evidence_reference : Option String
  pub observed_slot : Option ℕ

-- RuleResult::unknown
abbrev pub unknown_rule : String → String → String → RuleResult
unknown_rule rule_id rule_version reason_code = record {
  rule_id = rule_id;
  rule_version = rule_version;
  decision = unknown;
  reason_code = reason_code;
  evidence_reference = none;
  observed_slot = none;
}

pub record Score : Type 0 where
  pub value : ℕ  -- u8

pub record ScoreOutOfRange : Type 0 where
  pub value : ℕ  -- u8

-- Score::new, the only way to build a score, also when one is deserialized
unfoldable pub new_score : ℕ → Result ScoreOutOfRange Score
new_score value =
    if leb value 100 then ok (record { value = value }) else err (record { value = value })
