-- ===== src/Normalization/Registry.antt =====
-- apps/server/src/jobs/normalization.rs: the registry of the known markets. The map behind the lock is an
-- association list; a method that changes it returns the map after it. The lock is taken for one call at a
-- time and never poisoned, so `registry_unavailable` is not raised.
pub mod Keyed
pub mod Lookup
use text.Mathlib.Text.{◌==◌}
use soldisco.Prelude.{
  String, Option, none, some, List, [], ◌∷◌, Bool, true, false, Result, ok, err, ok_or, ◌>>=◌,
  retain, not, if◌then◌else◌,
}
use soldisco.Domain.{
  Network, MarketIdentity, pump_bonding_curve, pump_swap, raydium_cpmm, raydium_clmm,
  raydium_amm_v4, Venue,
}
use soldisco.Normalization.Pair.{PumpSwapPair, PumpSwapSourceOrientation, normalize_pump_swap_pair}

pub data MarketLookupKey : Type 0 where
  pump_mint pump_swap_pool : String → MarketLookupKey

pub record RegisteredMarket : Type 0 where
  pub identity : MarketIdentity
  pub pump_swap_source_orientation : Option PumpSwapSourceOrientation

abbrev pub MarketRegistry : Type 0
MarketRegistry = List (MarketLookupKey × RegisteredMarket)

pub data NormalizationError : Type 0 where
  registry_unavailable pump_swap_source_orientation_required zero_trade_amount source_details :
      NormalizationError
  pump_market_unresolved pump_swap_market_unresolved quote_mint_mismatch :
      String → NormalizationError
  -- base_mint, quote_mint
  unsupported_pump_swap_pair : String → String → NormalizationError

-- The derived equality of keys.
abbrev pub key_eq : MarketLookupKey → MarketLookupKey → Bool
key_eq (pump_mint a) (pump_mint b) = a == b
key_eq (pump_swap_pool a) (pump_swap_pool b) = a == b
key_eq _ _ = false

-- HashMap::get, remove and insert.
unfoldable pub get : MarketLookupKey → MarketRegistry → Option RegisteredMarket
get key [] = none
get key ((k, market) ∷ markets) =
    let rest = get key markets in if key_eq k key then some market else rest

unfoldable pub remove : MarketLookupKey → MarketRegistry → MarketRegistry
remove key markets = retain (λ entry. not (key_eq entry.0 key)) markets

unfoldable pub insert : MarketLookupKey → RegisteredMarket → MarketRegistry → MarketRegistry
insert key market markets = (key, market) ∷ remove key markets

-- The match on the venue.
abbrev pub register_as :
    MarketRegistry → MarketIdentity → Venue → Result NormalizationError MarketRegistry
register_as self market pump_bonding_curve = ok (
    insert (pump_mint market.mint)
      (record { identity = market; pump_swap_source_orientation = none }) self)
register_as self market pump_swap = err pump_swap_source_orientation_required
register_as self market _ = ok self

unfoldable pub register : MarketRegistry → MarketIdentity → Result NormalizationError MarketRegistry
register self market = register_as self market market.venue

abbrev pub pump_swap_market_identity : Network → String → PumpSwapPair → MarketIdentity
pump_swap_market_identity network pool pair = record {
  network = network;
  mint = pair.token_mint;
  venue = pump_swap;
  market_address = pool;
  quote_mint = some pair.quote_mint;
}

-- The registration of a normalized pair.
abbrev pub register_pair :
    MarketRegistry → Network → String → Option PumpSwapPair → MarketRegistry × Option MarketIdentity
register_pair self network pool none = (self, none)
register_pair self network pool (some pair) =
    let market = pump_swap_market_identity network pool pair in
    (
      insert (pump_swap_pool pool)
          (record {
            identity = market;
            pump_swap_source_orientation = some pair.source_orientation;
          })
          self,
      some market,
    )

unfoldable pub register_pump_swap_pool :
    MarketRegistry → Network → String → String → String → MarketRegistry × Option MarketIdentity
register_pump_swap_pool self network pool source_base_mint source_quote_mint =
    register_pair self network pool
      (normalize_pump_swap_pair network source_base_mint source_quote_mint)

-- The registry after the markets before the first error stays changed, as the source leaves it.
unfoldable pub register_all :
    MarketRegistry → List MarketIdentity → MarketRegistry × Option NormalizationError
register_all self [] = (self, none)
register_all self (market ∷ markets) = elim (register self market) [
  | err error ↦ (self, some error)
  | ok after ↦ register_all after markets
]

unfoldable pub retire_pump_market : MarketRegistry → String → MarketRegistry
retire_pump_market self mint = remove (pump_mint mint) self

unfoldable pub pump_market : MarketRegistry → String → Result NormalizationError MarketIdentity
pump_market self mint = do
  market ← ok_or (get (pump_mint mint) self) (pump_market_unresolved mint)
  ok market.identity

unfoldable pub pump_swap_market :
    MarketRegistry → String → Result NormalizationError RegisteredMarket
pump_swap_market self pool =
    ok_or (get (pump_swap_pool pool) self) (pump_swap_market_unresolved pool)
