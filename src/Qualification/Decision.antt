-- ===== src/Qualification/Decision.antt =====
-- When a window qualifies: the decision of `evaluate_qualification` against the thresholds
-- (crates/discovery-engine/src/qualification.rs).
use soldisco.Prelude.{
  ℕ, ◌+◌, ◌≤◌, ◌≡◌, ◌↔◌, refl, sym, ap, ◌∙◌, Option, none, some, List, [], ◌∷◌, true, false, ok,
  leb, if◌then◌else◌, arith, All, inl, inr, ◌⊎◌,
}
use soldisco.Domain.{pass, reject, unknown, RuleResult}
use soldisco.Snapshot.Samples.{
  MarketWindowSnapshot, WalletVolumeShare, SnapshotCompleteness, complete, is_complete,
}
use soldisco.Qualification.Policy.{
  QualificationPolicy, QuoteAssetClass, native, stable, unsupported, classify_quote_asset,
}
use soldisco.Qualification.Rules.{
  minimum_rule, aggregate, QualificationRuleId, minimum_trades, minimum_unique_traders,
  minimum_buys, minimum_sells, minimum_quote_volume,
}
use soldisco.Qualification.{
  QualificationAssessment, evaluate_qualification, complete_rules, incomplete_rules,
  quote_asset_rule, quote_volume_rule, concentration_rule,
}

-- A list of rules passes exactly when each rule does.
pub aggregate-pass :
    (rules : List RuleResult) → (aggregate rules ≡ pass) ↔ All (λ r. r.decision ≡ pass) rules
unfolding aggregate
aggregate-pass [] = (λ e. tt, λ h. refl)
aggregate-pass (r ∷ rules) = (
  λ e. (ground arith, (aggregate-pass rules).0 (ground arith)),
  λ h. ground (arith, h.0, (aggregate-pass rules).1 h.1),
)

decision-minimum_rule :
    (id : QualificationRuleId) (actual minimum : ℕ) (slot : Option ℕ)
    → (minimum_rule id actual minimum slot).decision ≡ (if leb minimum actual then pass else reject)
unfolding minimum_rule
decision-minimum_rule id actual minimum slot = refl

minimum_rule_passes :
    (id : QualificationRuleId) (actual minimum : ℕ) (slot : Option ℕ)
    → ((minimum_rule id actual minimum slot).decision ≡ pass) ↔ (minimum ≤ actual)
minimum_rule_passes id actual minimum slot = rw decision-minimum_rule (ground arith)

-- The volume threshold that applies to a quote asset is met; an unsupported asset has none.
abbrev pub VolumeMet : QuoteAssetClass → QualificationPolicy → ℕ → Type 0
VolumeMet native policy total = policy.minimum_native_quote_volume_units ≤ total
VolumeMet stable policy total = policy.minimum_stable_quote_volume_units ≤ total
VolumeMet unsupported policy total = ⊥

-- A largest wallet is known, and its share is within the limit.
abbrev pub ConcentrationMet : Option WalletVolumeShare → QualificationPolicy → Type 0
ConcentrationMet none policy = ⊥
ConcentrationMet (some largest) policy =
    largest.share_bps ≤ policy.maximum_single_wallet_quote_volume_bps

-- The thresholds that the documentation of the policy promises.
pub record Qualifies (snapshot : MarketWindowSnapshot) (policy : QualificationPolicy) : Type 0 where
  pub complete_window : snapshot.completeness ≡ complete
  pub trades_met : policy.minimum_trades ≤ snapshot.metrics.trades
  pub traders_met : policy.minimum_unique_traders ≤ snapshot.metrics.unique_traders
  pub buys_met : policy.minimum_buys ≤ snapshot.metrics.buys
  pub sells_met : policy.minimum_sells ≤ snapshot.metrics.sells
  pub volume_met :
      VolumeMet
        (classify_quote_asset snapshot.market)
        policy
        (snapshot.metrics.buy_quote_units + snapshot.metrics.sell_quote_units)
  pub concentration_met : ConcentrationMet snapshot.metrics.largest_wallet_quote_volume policy

quote_volume_rule_passes :
    (c : QuoteAssetClass) (total : ℕ) (policy : QualificationPolicy) (slot : Option ℕ)
    → ((quote_volume_rule c total policy slot).decision ≡ pass) ↔ VolumeMet c policy total
unfolding quote_volume_rule
quote_volume_rule_passes native total policy slot =
    minimum_rule_passes minimum_quote_volume total _ slot
quote_volume_rule_passes stable total policy slot =
    minimum_rule_passes minimum_quote_volume total _ slot
quote_volume_rule_passes unsupported total policy slot = (λ e. cc, λ h. absurd h)

concentration_rule_passes :
    (largest : Option WalletVolumeShare) (total : ℕ) (policy : QualificationPolicy)
    (slot : Option ℕ)
    → ((concentration_rule largest total policy slot).decision ≡ pass)
      ↔ ConcentrationMet largest policy
unfolding concentration_rule
concentration_rule_passes none total policy slot = (λ e. cc, λ h. absurd h)
concentration_rule_passes (some largest) total policy slot = ground arith

quote_asset_rule_passes :
    (c : QuoteAssetClass) (total : ℕ) (snapshot : MarketWindowSnapshot)
    (policy : QualificationPolicy)
    → VolumeMet c policy total
    → (quote_asset_rule c snapshot).decision ≡ pass
unfolding quote_asset_rule
quote_asset_rule_passes native total snapshot policy h = refl
quote_asset_rule_passes stable total snapshot policy h = refl
quote_asset_rule_passes unsupported total snapshot policy h = absurd h

module _ (snapshot : MarketWindowSnapshot) (policy : QualificationPolicy) (total : ℕ) where
  abbrev c : QuoteAssetClass
  c = classify_quote_asset snapshot.market

  -- The rules of a complete window all pass exactly when each threshold is met.
  complete_rules-pass : (aggregate (complete_rules snapshot policy total) ≡ pass) ↔ (
      (policy.minimum_trades ≤ snapshot.metrics.trades)
      × (policy.minimum_unique_traders ≤ snapshot.metrics.unique_traders)
      × (policy.minimum_buys ≤ snapshot.metrics.buys)
      × (policy.minimum_sells ≤ snapshot.metrics.sells)
      × VolumeMet c policy total
      × ConcentrationMet snapshot.metrics.largest_wallet_quote_volume policy)
  unfolding complete_rules
  complete_rules-pass = (
    λ e.
        let all = (aggregate-pass (complete_rules snapshot policy total)).0 e in
        (
          (minimum_rule_passes minimum_trades _ _ slot).0 all.1.1.0,
          (minimum_rule_passes minimum_unique_traders _ _ slot).0 all.1.1.1.0,
          (minimum_rule_passes minimum_buys _ _ slot).0 all.1.1.1.1.0,
          (minimum_rule_passes minimum_sells _ _ slot).0 all.1.1.1.1.1.0,
          (quote_volume_rule_passes c total policy slot).0 all.1.1.1.1.1.1.0,
          (concentration_rule_passes largest total policy slot).0 all.1.1.1.1.1.1.1.0,
        ),
    λ h. (aggregate-pass (complete_rules snapshot policy total)).1 (
      refl,
      (
        quote_asset_rule_passes c total snapshot policy h.4,
        (
          (minimum_rule_passes minimum_trades _ _ slot).1 h.0,
          (
            (minimum_rule_passes minimum_unique_traders _ _ slot).1 h.1,
            (
              (minimum_rule_passes minimum_buys _ _ slot).1 h.2,
              (
                (minimum_rule_passes minimum_sells _ _ slot).1 h.3,
                (
                  (quote_volume_rule_passes c total policy slot).1 h.4,
                  ((concentration_rule_passes largest total policy slot).1 h.5, tt),
                ),
              ),
            ),
          ),
        ),
      ),
    ),
  )
    where
      slot : Option ℕ
      slot = snapshot.latest_observed_slot

      largest : Option WalletVolumeShare
      largest = snapshot.metrics.largest_wallet_quote_volume

-- The two ways to an assessment.
pub record FromIncomplete (snapshot : MarketWindowSnapshot) (a : QualificationAssessment)
    : Type 0 where
  pub not_complete : is_complete snapshot.completeness ≡ false
  pub decided : a.decision ≡ unknown
  pub all_unknown : a.rules ≡ incomplete_rules snapshot

pub record FromComplete (snapshot : MarketWindowSnapshot) (policy : QualificationPolicy)
    (a : QualificationAssessment) : Type 0 where
  pub all_observed : is_complete snapshot.completeness ≡ true
  pub evaluated :
      a.rules
      ≡ complete_rules snapshot policy
          (snapshot.metrics.buy_quote_units + snapshot.metrics.sell_quote_units)
  pub decided : a.decision ≡ aggregate a.rules

pub evaluate_qualification_cases :
    (snapshot : MarketWindowSnapshot) (policy : QualificationPolicy) (a : QualificationAssessment)
    → evaluate_qualification snapshot policy ≡ ok a
    → FromIncomplete snapshot a ⊎ FromComplete snapshot policy a
unfolding evaluate_qualification
evaluate_qualification_cases snapshot policy a e = ground arith

completeness_cases : (c : SnapshotCompleteness) → (is_complete c ≡ true) ↔ (c ≡ complete)
completeness_cases c = ground arith

-- Whatever is evaluated, the decision is PASS exactly when the window is complete and meets every
-- threshold of the policy; the volume is compared in the units of its quote asset.
pub evaluate_qualification-pass :
    (snapshot : MarketWindowSnapshot) (policy : QualificationPolicy) (a : QualificationAssessment)
    → evaluate_qualification snapshot policy ≡ ok a
    → (a.decision ≡ pass) ↔ Qualifies snapshot policy
evaluate_qualification-pass snapshot policy a e =
    elim (evaluate_qualification_cases snapshot policy a e) [
      | inl i ↦ (
        λ p. cc (i.decided, p),
        λ q. cc (i.not_complete, (completeness_cases snapshot.completeness).1 q.complete_window),
      )
      | inr c ↦
          let total : ℕ = snapshot.metrics.buy_quote_units + snapshot.metrics.sell_quote_units in
          let decision : a.decision ≡ aggregate (complete_rules snapshot policy total) =
            c.decided ∙ ap aggregate c.evaluated in
          (
            λ p.
                let h = (complete_rules-pass snapshot policy total).0 (sym decision ∙ p) in
                record {
                  complete_window = (completeness_cases snapshot.completeness).0 c.all_observed;
                  trades_met = h.0;
                  traders_met = h.1;
                  buys_met = h.2;
                  sells_met = h.3;
                  volume_met = h.4;
                  concentration_met = h.5;
                },
            λ q.
                decision
                ∙ (complete_rules-pass snapshot policy total).1 (
                  q.trades_met, q.traders_met, q.buys_met, q.sells_met, q.volume_met,
                  q.concentration_met,
                ),
          )
    ]
