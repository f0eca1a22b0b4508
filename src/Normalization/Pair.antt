-- ===== src/Normalization/Pair.antt =====
-- apps/server/src/jobs/pump_swap_pair.rs: a pool's pair of mints in token and quote order.
pub mod Mirror
use text.Mathlib.Text.{◌==◌}
use soldisco.Prelude.{String, Option, none, some, Bool, true, false, ◌&&◌, ◌||◌}
use soldisco.Domain.{Network, solana_mainnet, network_eq}
use soldisco.Qualification.Policy.{native_sol_mint, wrapped_sol_mint, canonical_usdc_mint}

pub data PumpSwapSourceOrientation : Type 0 where
  base_is_token quote_is_token : PumpSwapSourceOrientation

pub record PumpSwapPair : Type 0 where
  pub token_mint : String
  pub quote_mint : String
  pub source_orientation : PumpSwapSourceOrientation

unfoldable pub is_supported_quote_mint : Network → String → Bool
is_supported_quote_mint network mint =
    (mint == native_sol_mint || mint == wrapped_sol_mint)
    || (network_eq network solana_mainnet && mint == canonical_usdc_mint)

-- The match on the two tests.
abbrev pub pair_of : String → String → Bool → Bool → Option PumpSwapPair
pair_of source_base_mint source_quote_mint false true = some (record {
  token_mint = source_base_mint;
  quote_mint = source_quote_mint;
  source_orientation = base_is_token;
})
pair_of source_base_mint source_quote_mint true false = some (record {
  token_mint = source_quote_mint;
  quote_mint = source_base_mint;
  source_orientation = quote_is_token;
})
pair_of source_base_mint source_quote_mint _ _ = none

unfoldable pub normalize_pump_swap_pair : Network → String → String → Option PumpSwapPair
normalize_pump_swap_pair network source_base_mint source_quote_mint =
    pair_of source_base_mint source_quote_mint (is_supported_quote_mint network source_base_mint)
      (is_supported_quote_mint network source_quote_mint)
