-- ===== src/Normalization/Pair/Mirror.antt =====
-- The order in which a pool lists its mints does not matter (apps/server/src/jobs/pump_swap_pair.rs).
use text.Mathlib.Text.{◌==◌ as str_eq}
use soldisco.Prelude.{
  String, none, some, Bool, true, false, ◌≡◌, refl, ◌↔◌, subst, arith, ◌≢◌, ◌&&◌, ◌||◌,
  if◌then◌else◌,
}
use soldisco.Domain.{Network, MarketIdentity, network_eq, solana_mainnet}
use soldisco.Qualification.Policy.{
  native_sol_mint, wrapped_sol_mint, canonical_usdc_mint, classify_quote_asset, native, stable,
  unsupported,
}
use soldisco.Normalization.Pair.{
  PumpSwapSourceOrientation, base_is_token, quote_is_token, PumpSwapPair, is_supported_quote_mint,
  pair_of, normalize_pump_swap_pair,
}

abbrev pub flip : PumpSwapSourceOrientation → PumpSwapSourceOrientation
flip base_is_token = quote_is_token
flip quote_is_token = base_is_token

abbrev pub mirror : PumpSwapPair → PumpSwapPair
mirror pair = record pair { source_orientation = flip pair.source_orientation }

-- What a normalized pair says of the source's mints.
abbrev pub OrientedPair : Network → String → String → PumpSwapPair → Type 0
OrientedPair network base quote pair =
    (is_supported_quote_mint network pair.token_mint ≡ false)
    × (is_supported_quote_mint network pair.quote_mint ≡ true)
    × (elim pair.source_orientation [
      | base_is_token ↦ (pair.token_mint ≡ base) × (pair.quote_mint ≡ quote)
      | quote_is_token ↦ (pair.token_mint ≡ quote) × (pair.quote_mint ≡ base)
    ])

from_tests :
    (network : Network) (base quote : String) (pair : PumpSwapPair) (b q : Bool)
    → is_supported_quote_mint network base ≡ b
    → is_supported_quote_mint network quote ≡ q
    → pair_of base quote b q ≡ some pair
    → OrientedPair network base quote pair
from_tests network base quote pair false true e f h =
    let same : record { token_mint = base; quote_mint = quote; source_orientation = base_is_token }
        ≡ pair =
      cc in
    subst (OrientedPair network base quote) same (e, f, (refl, refl))
from_tests network base quote pair true false e f h =
    let same : record { token_mint = quote; quote_mint = base; source_orientation = quote_is_token }
        ≡ pair =
      cc in
    subst (OrientedPair network base quote) same (f, e, (refl, refl))
from_tests network base quote pair true true e f h = cc
from_tests network base quote pair false false e f h = cc

from_pair :
    (network : Network) (base quote token_mint quote_mint : String) (o : PumpSwapSourceOrientation)
    → OrientedPair network base quote
        (record { token_mint = token_mint; quote_mint = quote_mint; source_orientation = o })
    → normalize_pump_swap_pair network base quote
      ≡ some (record { token_mint = token_mint; quote_mint = quote_mint; source_orientation = o })
unfolding normalize_pump_swap_pair
from_pair network base quote token_mint quote_mint base_is_token (a, b, (c, d)) =
    rw (← c, ← d, a, b) refl
from_pair network base quote token_mint quote_mint quote_is_token (a, b, (c, d)) =
    rw (← c, ← d, a, b) refl

-- A pool's mints make a pair just if exactly one of them is a supported quote asset: that one is the
-- pair's quote mint, the other its token mint, and the orientation says which the source lists first.
pub normalize_pump_swap_pair-OrientedPair :
    (network : Network) (base quote : String) (pair : PumpSwapPair)
    → (normalize_pump_swap_pair network base quote ≡ some pair)
      ↔ OrientedPair network base quote pair
unfolding normalize_pump_swap_pair
normalize_pump_swap_pair-OrientedPair network base quote pair = (
  from_tests network base quote pair (is_supported_quote_mint network base)
      (is_supported_quote_mint network quote) refl refl,
  from_pair network base quote pair.token_mint pair.quote_mint pair.source_orientation,
)

-- A pool that lists its mints the other way round has the same token and quote mint, and the other
-- orientation.
pub normalize_pump_swap_pair-mirror :
    (network : Network) (base quote : String)
    → normalize_pump_swap_pair network quote base
      ≡ elim (normalize_pump_swap_pair network base quote) [
        | none ↦ none
        | some pair ↦ some (mirror pair)
      ]
unfolding normalize_pump_swap_pair
normalize_pump_swap_pair-mirror network base quote =
    at_tests (is_supported_quote_mint network base) (is_supported_quote_mint network quote)
  where
    at_tests :
        (b q : Bool)
        → pair_of quote base q b
          ≡ elim (pair_of base quote b q) [ none ↦ none | some pair ↦ some (mirror pair) ]
    at_tests true true = refl
    at_tests true false = refl
    at_tests false true = refl
    at_tests false false = refl

-- The mints that the server takes for quote assets are those that the qualification policy takes for
-- native or stable ones.
is_supported_quote_mint-classify_quote_asset :
    (market : MarketIdentity) (mint : String)
    → market.quote_mint ≡ some mint
    → (is_supported_quote_mint market.network mint ≡ true)
      ↔ (classify_quote_asset market ≢ unsupported)
unfolding is_supported_quote_mint classify_quote_asset
is_supported_quote_mint-classify_quote_asset market mint h = rw h (
    at_tests (str_eq mint native_sol_mint || str_eq mint wrapped_sol_mint)
      (str_eq mint canonical_usdc_mint) (network_eq market.network solana_mainnet))
  where
    at_tests :
        (sol usdc mainnet : Bool)
        → ((sol || (mainnet && usdc)) ≡ true) ↔ (
            (if sol then native else if usdc && mainnet then stable else unsupported) ≢ unsupported)
    at_tests sol usdc mainnet = ground arith
