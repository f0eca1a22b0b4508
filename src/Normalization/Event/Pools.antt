-- ===== src/Normalization/Event/Pools.antt =====
-- The order in which a pool lists its mints does not matter to its trades
-- (apps/server/src/jobs/normalization.rs).
use soldisco.Prelude.{
  String, Option, none, some, Bool, true, false, ◌||◌, ◌==◌, inl, inr, Result, ok, err,
  Option-cases, ◌≡◌, refl,
}
use soldisco.Domain.{Network, MarketIdentity}
use soldisco.Pump.Model.{PumpSwapBuyEvent, PumpSwapSellEvent, PumpSwapCreatePoolEvent}
use soldisco.Normalization.Pair.{
  PumpSwapSourceOrientation, PumpSwapPair, normalize_pump_swap_pair, base_is_token, quote_is_token,
}
use soldisco.Normalization.Pair.Mirror.{flip, mirror, normalize_pump_swap_pair-mirror}
use soldisco.Normalization.Registry.{
  MarketRegistry, register_pump_swap_pool, pump_swap_market_identity, NormalizationError,
  pump_swap_market,
}
use soldisco.Normalization.Event.{
  Normalized, normalize_swap_buy, normalize_swap_sell, normalize_create_pool,
}
use soldisco.Normalization.Registry.Lookup.{register_pump_swap_pool-lookup}

or_comm : (a b : Bool) → (a || b) ≡ (b || a)
or_comm true true = refl
or_comm true false = refl
or_comm false true = refl
or_comm false false = refl

-- A buy, and a sell of a pool that lists the same two mints the other way round.
pub record Mirrors (buy : PumpSwapBuyEvent) (sell : PumpSwapSellEvent) : Type 0 where
  pub same_pool : sell.pool ≡ buy.pool
  pub same_user : sell.user ≡ buy.user
  pub amount_in : sell.base_amount_in ≡ buy.quote_amount_in
  pub amount_out : sell.quote_amount_out ≡ buy.base_amount_out
  pub base_reserves : sell.pool_base_token_reserves ≡ buy.pool_quote_token_reserves
  pub quote_reserves : sell.pool_quote_token_reserves ≡ buy.pool_base_token_reserves

mirrored :
    (a b : MarketRegistry) (identity : MarketIdentity) (o : PumpSwapSourceOrientation)
    (buy : PumpSwapBuyEvent) (sell : PumpSwapSellEvent)
    → pump_swap_market a buy.pool
      ≡ ok (record { identity = identity; pump_swap_source_orientation = some o })
    → pump_swap_market b sell.pool
      ≡ ok (record { identity = identity; pump_swap_source_orientation = some (flip o) })
    → Mirrors buy sell
    → normalize_swap_buy a buy ≡ normalize_swap_sell b sell
unfolding normalize_swap_buy normalize_swap_sell
mirrored a b identity base_is_token buy sell p q m =
    rw
      (
        p,
        q,
        m.same_user,
        m.amount_in,
        m.amount_out,
        m.base_reserves,
        m.quote_reserves,
        or_comm (buy.quote_amount_in == 0) (buy.base_amount_out == 0),
      )
      refl
mirrored a b identity quote_is_token buy sell p q m =
    rw
      (
        p,
        q,
        m.same_user,
        m.amount_in,
        m.amount_out,
        m.base_reserves,
        m.quote_reserves,
        or_comm (buy.quote_amount_in == 0) (buy.base_amount_out == 0),
      )
      refl

-- For a pool whose mints make a pair, a buy with the pool registered in one listing order and the
-- mirrored sell with it registered in the other give the same kind, market, payload or error.
pub normalize_swap_buy-mirror :
    (self : MarketRegistry) (network : Network) (base quote : String) (pair : PumpSwapPair)
    (buy : PumpSwapBuyEvent) (sell : PumpSwapSellEvent)
    → normalize_pump_swap_pair network base quote ≡ some pair
    → Mirrors buy sell
    → normalize_swap_buy (register_pump_swap_pool self network buy.pool base quote).0 buy
      ≡ normalize_swap_sell (register_pump_swap_pool self network buy.pool quote base).0 sell
normalize_swap_buy-mirror self network base quote pair buy sell h m =
    let other : normalize_pump_swap_pair network quote base ≡ some (mirror pair) =
      rw h at (normalize_pump_swap_pair-mirror network base quote) in
    let found = (register_pump_swap_pool-lookup self network buy.pool base quote "" pair h).0 in
    let mirrored_found =
      (register_pump_swap_pool-lookup self network buy.pool quote base "" (mirror pair) other).0 in
    mirrored (register_pump_swap_pool self network buy.pool base quote).0
      (register_pump_swap_pool self network buy.pool quote base).0
      (pump_swap_market_identity network buy.pool pair) pair.source_orientation buy sell found
      (rw m.same_pool mirrored_found) m

-- The registration of a pool gives the market that its event discovers, and nothing where it fails.
abbrev pub DiscoveredAs :
    MarketRegistry × Option MarketIdentity
    → MarketRegistry
    → Result NormalizationError Normalized
    → Type 0
DiscoveredAs after self (ok n) = after.1 ≡ n.discovered_market
DiscoveredAs after self (err error) = after ≡ (self, none)

-- A created pool whose mints make a pair is discovered as the market that registering the pool gives; one
-- whose mints make none is an error, and registering it changes nothing.
pub normalize_create_pool-DiscoveredAs :
    (self : MarketRegistry) (network : Network) (event : PumpSwapCreatePoolEvent)
    → DiscoveredAs
        (register_pump_swap_pool self network event.pool event.base_mint event.quote_mint)
        self
        (normalize_create_pool network event)
unfolding normalize_create_pool register_pump_swap_pool
normalize_create_pool-DiscoveredAs self network event =
    elim (Option-cases (normalize_pump_swap_pair network event.base_mint event.quote_mint)) [
      | inl unpaired ↦ rw (normalize_create_pool, register_pump_swap_pool, unpaired) refl
      | inr (pair, paired) ↦ rw (normalize_create_pool, register_pump_swap_pool, paired) refl
    ]
