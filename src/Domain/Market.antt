-- ===== src/Domain/Market.antt =====
-- crates/domain/src/market.rs: networks, venues and the identity of a market.
use soldisco.Prelude.{String, Option, none, some, Bool, true, false, ◌≡◌, ◌&&◌, ◌↔◌, arith, eq_iff}
use text.Mathlib.Text.{◌==◌}

pub data Network : Type 0 where
  solana_mainnet solana_devnet : Network

pub data Venue : Type 0 where
  pump_bonding_curve pump_swap raydium_cpmm raydium_clmm raydium_amm_v4 : Venue

pub record MarketIdentity : Type 0 where
  pub network : Network
  pub mint : String
  pub venue : Venue
  pub market_address : String
  pub quote_mint : Option String

abbrev is_raydium_venue : Venue → Bool
is_raydium_venue raydium_cpmm = true
is_raydium_venue raydium_clmm = true
is_raydium_venue raydium_amm_v4 = true
is_raydium_venue _ = false

unfoldable pub is_raydium : MarketIdentity → Bool
is_raydium market = is_raydium_venue market.venue

-- The derived equality of the enums and of the record.
abbrev pub network_eq : Network → Network → Bool
network_eq solana_mainnet solana_mainnet = true
network_eq solana_devnet solana_devnet = true
network_eq _ _ = false

abbrev pub venue_eq : Venue → Venue → Bool
venue_eq pump_bonding_curve pump_bonding_curve = true
venue_eq pump_swap pump_swap = true
venue_eq raydium_cpmm raydium_cpmm = true
venue_eq raydium_clmm raydium_clmm = true
venue_eq raydium_amm_v4 raydium_amm_v4 = true
venue_eq _ _ = false

abbrev pub option_string_eq : Option String → Option String → Bool
option_string_eq none none = true
option_string_eq (some a) (some b) = a == b
option_string_eq _ _ = false

unfoldable pub market_eq : MarketIdentity → MarketIdentity → Bool
market_eq a b =
    network_eq a.network b.network
    && a.mint == b.mint
    && venue_eq a.venue b.venue
    && a.market_address == b.market_address
    && option_string_eq a.quote_mint b.quote_mint

network_eq_iff : (a b : Network) → (network_eq a b ≡ true) ↔ (a ≡ b)
network_eq_iff a b = ground arith

venue_eq_iff : (a b : Venue) → (venue_eq a b ≡ true) ↔ (a ≡ b)
venue_eq_iff a b = ground arith

option_string_eq_iff : (a b : Option String) → (option_string_eq a b ≡ true) ↔ (a ≡ b)
option_string_eq_iff none none = ground arith
option_string_eq_iff (some a) none = ground arith
option_string_eq_iff none (some b) = ground arith
option_string_eq_iff (some a) (some b) = ground (arith, eq_iff a b)

pub market_eq_iff : (a b : MarketIdentity) → (market_eq a b ≡ true) ↔ (a ≡ b)
unfolding market_eq
market_eq_iff a b = ground (
  arith,
  network_eq_iff a.network b.network,
  eq_iff a.mint b.mint,
  venue_eq_iff a.venue b.venue,
  eq_iff a.market_address b.market_address,
  option_string_eq_iff a.quote_mint b.quote_mint,
)
