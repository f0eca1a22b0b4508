-- ===== src/Qualification/Audit.antt =====
-- Every assessment carries the evidence of all rules, and only valid policies are evaluated
-- (crates/discovery-engine/src/qualification.rs).
use soldisco.Prelude.{
  ℕ, List, [], ◌∷◌, ◌⊎◌, All, any, true, subst, ◌+◌, ◌<◌, ◌≤◌, ◌^◌, ◌≡◌, ◌↔◌, refl, sym, ap, ◌∙◌,
  map, false, ok, arith, inl, inr, Bool-cases,
}
use soldisco.Prelude.Text.{is_blank}
use soldisco.Domain.{AssessmentDecision, reject, unknown, pass, decision_eq, RuleResult}
use soldisco.Snapshot.Checked.{checked_add-eq-ok, u128_width}
use soldisco.Snapshot.Samples.{MarketWindowSnapshot, is_complete}
use soldisco.Qualification.Policy.{QualificationPolicy, validate}
use soldisco.Qualification.Rules.{rule, aggregate, rule_name, all_rule_ids}
use soldisco.Qualification.{
  QualificationAssessment, evaluate_qualification, complete_rules, incomplete_rules,
}
use soldisco.Qualification.Decision.{aggregate-pass, evaluate_qualification_cases}

-- What `validate` promises of a policy.
pub record IsValid (policy : QualificationPolicy) : Type 0 where
  pub named : is_blank policy.ruleset_version ≡ false
  pub share_fits : policy.maximum_single_wallet_quote_volume_bps ≤ 10000
  pub traders_le : policy.minimum_unique_traders ≤ policy.minimum_trades
  pub buys_le : policy.minimum_buys ≤ policy.minimum_trades
  pub sells_le : policy.minimum_sells ≤ policy.minimum_trades

-- A policy validates exactly when its version is not blank, its largest share is at most 10000 basis
-- points, and it asks for no more traders, buys or sells than trades.
pub validate-IsValid : (policy : QualificationPolicy) → (validate policy ≡ ok tt) ↔ IsValid policy
unfolding validate
validate-IsValid policy = (λ e. ground arith, λ v. ground arith)

-- A valid policy is evaluated on every snapshot whose total quote volume fits into 128 bits.
pub evaluate_qualification_total :
    (snapshot : MarketWindowSnapshot) (policy : QualificationPolicy)
    → IsValid policy
    → snapshot.metrics.buy_quote_units + snapshot.metrics.sell_quote_units < 2 ^ u128_width
    → (a : QualificationAssessment) × (evaluate_qualification snapshot policy ≡ ok a)
unfolding evaluate_qualification
evaluate_qualification_total snapshot policy v word =
    rw ((validate-IsValid policy).1 v) (elim (Bool-cases (is_complete snapshot.completeness)) [
      | inl all_observed ↦
          rw (all_observed, checked_add-eq-ok u128_width _ _ word)
            (
              record {
                ruleset_version = policy.ruleset_version;
                decision = aggregate (complete_rules snapshot policy total);
                rules = complete_rules snapshot policy total;
              },
              refl,
            )
      | inr missing ↦ rw missing (
        record {
          ruleset_version = policy.ruleset_version;
          decision = unknown;
          rules = incomplete_rules snapshot;
        },
        refl,
      )
    ])
  where
    total : ℕ
    total = snapshot.metrics.buy_quote_units + snapshot.metrics.sell_quote_units

decision_of_complete :
    (snapshot : MarketWindowSnapshot) (policy : QualificationPolicy) (total : ℕ)
    → map (λ r. r.rule_id) (complete_rules snapshot policy total) ≡ map rule_name all_rule_ids
unfolding complete_rules
decision_of_complete snapshot policy total = ground arith

-- A rule of the list has the decision.
abbrev pub AnyDecides : AssessmentDecision → List RuleResult → Type 0
AnyDecides d [] = ⊥
AnyDecides d (r ∷ rest) = (r.decision ≡ d) ⊎ AnyDecides d rest

-- How a decision follows from rules: a rejection outweighs what is unknown, and that outweighs a pass.
pub record Follows (d : AssessmentDecision) (rules : List RuleResult) : Type 0 where
  pub rejects : (d ≡ reject) ↔ AnyDecides reject rules
  pub leaves_unknown : (d ≡ unknown) ↔ ((¬ AnyDecides reject rules) × AnyDecides unknown rules)
  pub passes : (d ≡ pass) ↔ All (λ r. r.decision ≡ pass) rules

any-AnyDecides :
    (d : AssessmentDecision) (rules : List RuleResult)
    → (any (λ r. decision_eq r.decision d) rules ≡ true) ↔ AnyDecides d rules
any-AnyDecides d [] = ground arith
any-AnyDecides d (r ∷ rest) = ground (arith, any-AnyDecides d rest)

aggregate-Follows : (rules : List RuleResult) → Follows (aggregate rules) rules
unfolding aggregate
aggregate-Follows rules = record {
  rejects = ground (arith, any-AnyDecides reject rules);
  leaves_unknown = ground (arith, any-AnyDecides reject rules, any-AnyDecides unknown rules);
  passes = aggregate-pass rules;
}

-- Every assessment lists all eight rules in the fixed order, and its decision follows from them: it is
-- REJECT exactly when one rejects, UNKNOWN exactly when none rejects and one is unknown, and PASS exactly
-- when all pass.
pub evaluate_qualification-rules :
    (snapshot : MarketWindowSnapshot) (policy : QualificationPolicy) (a : QualificationAssessment)
    → evaluate_qualification snapshot policy ≡ ok a
    → (map (λ r. r.rule_id) a.rules ≡ map rule_name all_rule_ids) × Follows a.decision a.rules
unfolding incomplete_rules rule aggregate
evaluate_qualification-rules snapshot policy a e =
    elim (evaluate_qualification_cases snapshot policy a e) [
      | inl i ↦ (
        ap (map (λ r. r.rule_id)) i.all_unknown,
        subst (λ d. Follows d a.rules) (ap aggregate i.all_unknown ∙ sym i.decided)
            (aggregate-Follows a.rules),
      )
      | inr c ↦ (
        ap (map (λ r. r.rule_id)) c.evaluated ∙ decision_of_complete snapshot policy _,
        subst (λ d. Follows d a.rules) (sym c.decided) (aggregate-Follows a.rules),
      )
    ]
