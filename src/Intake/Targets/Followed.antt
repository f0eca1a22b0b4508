-- ===== src/Intake/Targets/Followed.antt =====
-- The target that intake follows for an event is its observation's (apps/server/src/jobs/intake.rs,
-- apps/server/src/jobs/normalization.rs).
use soldisco.Prelude.{
  String, Option, none, some, ok, Result-cases, Option-cases, inl, inr, ◌≡◌, refl, ap, arith,
}
use soldisco.Domain.{Network, MarketIdentity, Venue}
use soldisco.Pump.Model.{
  PumpEvent, PumpTradeEvent, PumpSwapCreatePoolEvent, PumpSwapBuyEvent, PumpSwapSellEvent,
  PumpSwapDepositEvent, PumpSwapWithdrawEvent,
}
use soldisco.Window.Target.{ObservationTarget, pump_mint, pump_swap_pool, for_market}
use soldisco.Normalization.Pair.{normalize_pump_swap_pair}
use soldisco.Normalization.Registry.{
  MarketRegistry, RegisteredMarket, pump_mint as mint_key, get, pump_market, pump_swap_market,
  pump_swap_market_identity,
}
use soldisco.Normalization.Registry.Keyed.{IsKeyed, get-FitsKey}
use soldisco.Normalization.Event.{
  Normalized, bonding_curve_market, normalize_event, normalize_trade, normalize_create_pool,
  normalize_swap_buy, normalize_swap_sell, normalize_swap_deposit, normalize_swap_withdraw,
}
use soldisco.Normalization.Event.Venues.{pump_swap_market-FitsKey}
use soldisco.Intake.Targets.{DiscoverySeed, discovery_seed, event_tracking_target}

-- The target of a discovery.
abbrev target_of : Option DiscoverySeed → Option ObservationTarget
target_of none = none
target_of (some seed) = some seed.target

abbrev or_discovered : Option ObservationTarget → Option DiscoverySeed → Option ObservationTarget
or_discovered (some target) seed = some target
or_discovered none seed = target_of seed

-- The target that intake tracks for an event, or that the event discovers.
abbrev pub followed_target : Network → PumpEvent → Option ObservationTarget
followed_target network event =
    or_discovered (event_tracking_target event) (discovery_seed event network)

curve_target :
    (market : MarketIdentity) (mint : String)
    → market.venue ≡ Venue.pump_bonding_curve
    → market.mint ≡ mint
    → for_market market ≡ some (pump_mint mint)
unfolding for_market
curve_target market mint venue same = rw venue (ap (λ m. some (pump_mint m)) same)

pool_target :
    (market : MarketIdentity) (pool : String)
    → market.venue ≡ Venue.pump_swap
    → market.market_address ≡ pool
    → for_market market ≡ some (pump_swap_pool pool)
unfolding for_market
pool_target market pool venue same = rw venue (ap (λ p. some (pump_swap_pool p)) same)

pump_market-target :
    (markets : MarketRegistry) (mint : String) (market : MarketIdentity)
    → IsKeyed markets
    → pump_market markets mint ≡ ok market
    → for_market market ≡ some (pump_mint mint)
unfolding pump_market
pump_market-target markets mint market keyed h = elim (Option-cases (get (mint_key mint) markets)) [
  | inl missing ↦ cc (rw missing at h)
  | inr (m, found) ↦
      let fits = get-FitsKey (mint_key mint) m markets keyed found in
      let same : m.identity ≡ market = ground arith in
      rw same at (curve_target m.identity mint fits.0 fits.1)
]

pump_swap_market-target :
    (markets : MarketRegistry) (pool : String) (market : RegisteredMarket)
    → IsKeyed markets
    → pump_swap_market markets pool ≡ ok market
    → for_market market.identity ≡ some (pump_swap_pool pool)
pump_swap_market-target markets pool market keyed h =
    let fits = pump_swap_market-FitsKey markets pool market keyed h in
    pool_target market.identity pool fits.0 fits.1

trade-target :
    (markets : MarketRegistry) (event : PumpTradeEvent) (n : Normalized)
    → IsKeyed markets
    → normalize_trade markets event ≡ ok n
    → for_market n.market ≡ some (pump_mint event.mint)
unfolding normalize_trade
trade-target markets event n keyed h = elim (Result-cases (pump_market markets event.mint)) [
  | inl (market, e) ↦
      let target = pump_market-target markets event.mint market keyed e in
      let same : market ≡ n.market = ground arith in rw same at target
  | inr (error, e) ↦ ground arith
]

buy-target :
    (markets : MarketRegistry) (event : PumpSwapBuyEvent) (n : Normalized)
    → IsKeyed markets
    → normalize_swap_buy markets event ≡ ok n
    → for_market n.market ≡ some (pump_swap_pool event.pool)
unfolding normalize_swap_buy
buy-target markets event n keyed h = elim (Result-cases (pump_swap_market markets event.pool)) [
  | inl (market, e) ↦
      let target = pump_swap_market-target markets event.pool market keyed e in
      let same : market.identity ≡ n.market = ground arith in rw same at target
  | inr (error, e) ↦ ground arith
]

sell-target :
    (markets : MarketRegistry) (event : PumpSwapSellEvent) (n : Normalized)
    → IsKeyed markets
    → normalize_swap_sell markets event ≡ ok n
    → for_market n.market ≡ some (pump_swap_pool event.pool)
unfolding normalize_swap_sell
sell-target markets event n keyed h = elim (Result-cases (pump_swap_market markets event.pool)) [
  | inl (market, e) ↦
      let target = pump_swap_market-target markets event.pool market keyed e in
      let same : market.identity ≡ n.market = ground arith in rw same at target
  | inr (error, e) ↦ ground arith
]

deposit-target :
    (markets : MarketRegistry) (event : PumpSwapDepositEvent) (n : Normalized)
    → IsKeyed markets
    → normalize_swap_deposit markets event ≡ ok n
    → for_market n.market ≡ some (pump_swap_pool event.pool)
unfolding normalize_swap_deposit
deposit-target markets event n keyed h = elim (Result-cases (pump_swap_market markets event.pool)) [
  | inl (market, e) ↦
      let target = pump_swap_market-target markets event.pool market keyed e in
      let same : market.identity ≡ n.market = ground arith in rw same at target
  | inr (error, e) ↦ ground arith
]

withdraw-target :
    (markets : MarketRegistry) (event : PumpSwapWithdrawEvent) (n : Normalized)
    → IsKeyed markets
    → normalize_swap_withdraw markets event ≡ ok n
    → for_market n.market ≡ some (pump_swap_pool event.pool)
unfolding normalize_swap_withdraw
withdraw-target markets event n keyed h =
    elim (Result-cases (pump_swap_market markets event.pool)) [
      | inl (market, e) ↦
          let target = pump_swap_market-target markets event.pool market keyed e in
          let same : market.identity ≡ n.market = ground arith in rw same at target
      | inr (error, e) ↦ ground arith
    ]

create_pool-target :
    (network : Network) (event : PumpSwapCreatePoolEvent) (n : Normalized)
    → normalize_create_pool network event ≡ ok n
    → for_market n.market
      ≡ target_of (discovery_seed (PumpEvent.pump_swap_create_pool event) network)
unfolding normalize_create_pool discovery_seed
create_pool-target network event n h =
    elim (Option-cases (normalize_pump_swap_pair network event.base_mint event.quote_mint)) [
      | inl unpaired ↦ cc (rw (normalize_create_pool, unpaired) at h)
      | inr (pair, paired) ↦
          let market = pump_swap_market_identity network event.pool pair in
          let same : market ≡ n.market = ground arith in
          rw (discovery_seed, paired) (rw same at (pool_target market event.pool refl refl))
    ]

own_target :
    (n : Normalized) (market : MarketIdentity) (mint : String)
    → market ≡ n.market
    → market.venue ≡ Venue.pump_bonding_curve
    → market.mint ≡ mint
    → for_market n.market ≡ some (pump_mint mint)
own_target n market mint same venue e = rw same at (curve_target market mint venue e)

-- With a registry whose markets stand under their own keys, the market to which an event is normalized has
-- the observation target under which intake tracks the event, or which the event discovers.
pub normalize_event-followed :
    (network : Network) (markets : MarketRegistry) (event : PumpEvent) (n : Normalized)
    → IsKeyed markets
    → normalize_event network markets event ≡ ok n
    → for_market n.market ≡ followed_target network event
unfolding normalize_event event_tracking_target discovery_seed
normalize_event-followed network markets (PumpEvent.create event) n keyed h =
    own_target n (bonding_curve_market network event.mint event.bonding_curve event.quote_mint)
      event.mint (ground arith) refl refl
normalize_event-followed network markets (PumpEvent.trade event) n keyed h =
    trade-target markets event n keyed h
normalize_event-followed network markets (PumpEvent.complete event) n keyed h =
    own_target n (bonding_curve_market network event.mint event.bonding_curve event.quote_mint)
      event.mint (ground arith) refl refl
normalize_event-followed network markets (PumpEvent.complete_pump_amm_migration event) n keyed h =
    own_target n (bonding_curve_market network event.mint event.bonding_curve event.quote_mint)
      event.mint (ground arith) refl refl
normalize_event-followed network markets (PumpEvent.pump_swap_create_pool event) n keyed h =
    create_pool-target network event n h
normalize_event-followed network markets (PumpEvent.pump_swap_buy event) n keyed h =
    buy-target markets event n keyed h
normalize_event-followed network markets (PumpEvent.pump_swap_sell event) n keyed h =
    sell-target markets event n keyed h
normalize_event-followed network markets (PumpEvent.pump_swap_deposit event) n keyed h =
    deposit-target markets event n keyed h
normalize_event-followed network markets (PumpEvent.pump_swap_withdraw event) n keyed h =
    withdraw-target markets event n keyed h
