-- ===== src/Risk/Decision.antt =====
-- The risk decision fails closed (crates/risk-engine/src/lib.rs).
use soldisco.Prelude.{Option, List, [], ◌∷◌, ◌≡◌, ◌↔◌, ◌⊎◌, refl, All, arith, any, true, false}
use soldisco.Domain.{pass, reject, unknown, decision_eq, RuleResult, Score}
use soldisco.Qualification.Rules.{aggregate}
use soldisco.Risk.{decide_rules, from_rules, no_rules}

-- A rule of the list rejects.
abbrev pub AnyRejects : List RuleResult → Type 0
AnyRejects [] = ⊥
AnyRejects (r ∷ rest) = (r.decision ≡ reject) ⊎ AnyRejects rest

any-reject :
    (rules : List RuleResult)
    → (any (λ r. decision_eq r.decision reject) rules ≡ true) ↔ AnyRejects rules
any-reject [] = ground arith
any-reject (r ∷ rest) = ground (arith, any-reject rest)

passes_of_tests :
    (rules : List RuleResult)
    → any (λ r. decision_eq r.decision reject) rules ≡ false
    → any (λ r. decision_eq r.decision unknown) rules ≡ false
    → All (λ r. r.decision ≡ pass) rules
passes_of_tests [] p q = tt
passes_of_tests (r ∷ rest) p q = (ground arith, passes_of_tests rest (ground arith) (ground arith))

none-reject :
    (rules : List RuleResult)
    → All (λ r. r.decision ≡ pass) rules
    → (any (λ r. decision_eq r.decision reject) rules ≡ false)
      × (any (λ r. decision_eq r.decision unknown) rules ≡ false)
none-reject [] h = (refl, refl)
none-reject (r ∷ rest) h = ground (arith, h.0, none-reject rest h.1)

-- The decision rejects exactly when a rule rejects, and passes exactly when there is a rule and all
-- rules pass; the scores and the rules are kept as they are.
pub from_rules_decides :
    (rules : List RuleResult) (risk_score opportunity_score : Option Score)
    → (((from_rules rules risk_score opportunity_score).decision ≡ reject) ↔ AnyRejects rules)
      × (((from_rules rules risk_score opportunity_score).decision ≡ pass)
          ↔ ((no_rules rules ≡ false) × All (λ r. r.decision ≡ pass) rules))
      × ((from_rules rules risk_score opportunity_score).rules ≡ rules)
      × ((from_rules rules risk_score opportunity_score).risk_score ≡ risk_score)
      × ((from_rules rules risk_score opportunity_score).opportunity_score ≡ opportunity_score)
unfolding from_rules
from_rules_decides rules risk_score opportunity_score = (
  ground (arith, any-reject rules),
  (
    λ p. (ground arith, passes_of_tests rules (ground arith) (ground arith)),
    λ h. ground (arith, none-reject rules h.1),
  ),
  refl,
  refl,
  refl,
)

-- On a nonempty list of rules the risk engine decides as the qualification aggregates.
decide_rules-aggregate :
    (rules : List RuleResult) → no_rules rules ≡ false → decide_rules rules ≡ aggregate rules
unfolding decide_rules aggregate
decide_rules-aggregate rules h = ground arith
