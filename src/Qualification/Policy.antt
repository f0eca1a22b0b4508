-- ===== src/Qualification/Policy.antt =====
-- crates/discovery-engine/src/qualification.rs: quote assets, the policy and its validation.
use text.Mathlib.Text.{◌==◌}
use soldisco.Prelude.{
  ℕ, String, none, some, ◌||◌, ◌&&◌, Result, ok, ◌>>◌, reject_if, ltb, if◌then◌else◌,
}
use soldisco.Prelude.Text.{is_blank}
use soldisco.Domain.{network_eq, solana_mainnet, MarketIdentity}
use soldisco.Snapshot.Checked.{SnapshotError}
use soldisco.Snapshot.BasisPoints.{basis_points_scale}

abbrev pub native_sol_mint : String
native_sol_mint = "11111111111111111111111111111111"

abbrev pub wrapped_sol_mint : String
wrapped_sol_mint = "So11111111111111111111111111111111111111112"

abbrev pub canonical_usdc_mint : String
canonical_usdc_mint = "EPjFWdd5AufqSSqeM2qN1xzybapC8G4wEGGkZwyTDt1v"

pub data QuoteAssetClass : Type 0 where
  native stable unsupported : QuoteAssetClass

-- The match on the quote mint; the source passes a snapshot and reads only its market.
unfoldable pub classify_quote_asset : MarketIdentity → QuoteAssetClass
classify_quote_asset market = elim market.quote_mint [
  | none ↦ unsupported
  | some mint ↦
      if mint == native_sol_mint || mint == wrapped_sol_mint
      then native
      else if mint == canonical_usdc_mint && network_eq market.network solana_mainnet
      then stable
      else unsupported
]

pub record QualificationPolicy : Type 0 where
  pub ruleset_version : String
  pub minimum_trades : ℕ  -- u64
  pub minimum_unique_traders : ℕ  -- u64
  pub minimum_buys : ℕ  -- u64
  pub minimum_sells : ℕ  -- u64
  pub minimum_native_quote_volume_units : ℕ  -- u128
  pub minimum_stable_quote_volume_units : ℕ  -- u128
  pub maximum_single_wallet_quote_volume_bps : ℕ  -- u16

-- QualificationPolicy::default
abbrev pub default_policy : QualificationPolicy
default_policy = record {
  ruleset_version = "initial-qualification-v1";
  minimum_trades = 5;
  minimum_unique_traders = 3;
  minimum_buys = 1;
  minimum_sells = 1;
  minimum_native_quote_volume_units = 50_000_000;
  minimum_stable_quote_volume_units = 5_000_000;
  maximum_single_wallet_quote_volume_bps = 9_000;
}

pub data QualificationPolicyError : Type 0 where
  missing_ruleset_version : QualificationPolicyError
  invalid_maximum_wallet_share : ℕ → QualificationPolicyError
  minimum_unique_traders_exceed_trades minimum_buys_exceed_trades : QualificationPolicyError
  minimum_sells_exceed_trades : QualificationPolicyError
  snapshot_error : SnapshotError → QualificationPolicyError

-- QualificationPolicy::validate
unfoldable pub validate : QualificationPolicy → Result QualificationPolicyError (Unit {0})
validate self = do
  reject_if (is_blank self.ruleset_version) missing_ruleset_version
  reject_if (ltb basis_points_scale self.maximum_single_wallet_quote_volume_bps)
      (invalid_maximum_wallet_share self.maximum_single_wallet_quote_volume_bps)
  reject_if (ltb self.minimum_trades self.minimum_unique_traders)
      minimum_unique_traders_exceed_trades
  reject_if (ltb self.minimum_trades self.minimum_buys) minimum_buys_exceed_trades
  reject_if (ltb self.minimum_trades self.minimum_sells) minimum_sells_exceed_trades
  ok tt
