-- ===== src/Normalization/Event/Venues.antt =====
-- The market of an observation is its program's (apps/server/src/jobs/normalization.rs).
use soldisco.Prelude.{
  ℕ, String, List, not, inl, inr, ok, Result-cases, Option-cases, at_ok, reject_if-eq-ok, ◌≡◌, refl,
  ◌∙◌, ap, arith,
}
use soldisco.Prelude.Int.{ℤ}
use soldisco.Domain.{Network, MarketIdentity, Commitment, Venue, ChainCoordinate}
use soldisco.Pump.{PumpProgram, pump, pump_swap, source_program}
use soldisco.Pump.Model.{
  PumpEvent, DecodedPumpEvent, PumpTradeEvent, PumpSwapBuyEvent, PumpSwapSellEvent,
  PumpSwapDepositEvent, PumpSwapWithdrawEvent,
}
use soldisco.Pump.Decode.{decode_anchor_event}
use soldisco.Pump.Decode.Attributed.{emitter, decode_anchor_event-Attribution}
use soldisco.Normalization.Registry.{
  MarketRegistry, RegisteredMarket, pump_mint, pump_swap_pool, get, pump_market, pump_swap_market,
  source_details,
}
use soldisco.Normalization.Registry.Keyed.{FitsKey, IsKeyed, get-FitsKey}
use soldisco.Normalization.Event.{
  Host, Normalized, NormalizedPumpEvent, normalize_event, normalize_pump_event, normalize_trade,
  normalize_swap_buy, normalize_swap_sell, normalize_create_pool, normalize_swap_deposit,
  normalize_swap_withdraw,
}

-- The venue on which a program trades.
abbrev pub venue_of : PumpProgram → Venue
venue_of pump = Venue.pump_bonding_curve
venue_of pump_swap = Venue.pump_swap

pump_market-venue :
    (markets : MarketRegistry) (mint : String) (market : MarketIdentity)
    → IsKeyed markets
    → pump_market markets mint ≡ ok market
    → market.venue ≡ Venue.pump_bonding_curve
unfolding pump_market
pump_market-venue markets mint market keyed h = elim (Option-cases (get (pump_mint mint) markets)) [
  | inl missing ↦ cc (rw missing at h)
  | inr (m, found) ↦ let fits = get-FitsKey (pump_mint mint) m markets keyed found in ground arith
]

-- A found PumpSwap market is one, and its orientation is known.
pub pump_swap_market-FitsKey :
    (markets : MarketRegistry) (pool : String) (market : RegisteredMarket)
    → IsKeyed markets
    → pump_swap_market markets pool ≡ ok market
    → FitsKey (pump_swap_pool pool) market
unfolding pump_swap_market
pump_swap_market-FitsKey markets pool market keyed h =
    get-FitsKey (pump_swap_pool pool) market markets keyed (ground arith)

trade-venue :
    (markets : MarketRegistry) (event : PumpTradeEvent) (n : Normalized)
    → IsKeyed markets
    → normalize_trade markets event ≡ ok n
    → n.market.venue ≡ Venue.pump_bonding_curve
unfolding normalize_trade
trade-venue markets event n keyed h = elim (Result-cases (pump_market markets event.mint)) [
  | inl (market, e) ↦
      let on_curve = pump_market-venue markets event.mint market keyed e in ground arith
  | inr (error, e) ↦ ground arith
]

buy-venue :
    (markets : MarketRegistry) (event : PumpSwapBuyEvent) (n : Normalized)
    → IsKeyed markets
    → normalize_swap_buy markets event ≡ ok n
    → n.market.venue ≡ Venue.pump_swap
unfolding normalize_swap_buy
buy-venue markets event n keyed h = elim (Result-cases (pump_swap_market markets event.pool)) [
  | inl (market, e) ↦
      let fits = (pump_swap_market-FitsKey markets event.pool market keyed e).0 in ground arith
  | inr (error, e) ↦ ground arith
]

sell-venue :
    (markets : MarketRegistry) (event : PumpSwapSellEvent) (n : Normalized)
    → IsKeyed markets
    → normalize_swap_sell markets event ≡ ok n
    → n.market.venue ≡ Venue.pump_swap
unfolding normalize_swap_sell
sell-venue markets event n keyed h = elim (Result-cases (pump_swap_market markets event.pool)) [
  | inl (market, e) ↦
      let fits = (pump_swap_market-FitsKey markets event.pool market keyed e).0 in ground arith
  | inr (error, e) ↦ ground arith
]

deposit-venue :
    (markets : MarketRegistry) (event : PumpSwapDepositEvent) (n : Normalized)
    → IsKeyed markets
    → normalize_swap_deposit markets event ≡ ok n
    → n.market.venue ≡ Venue.pump_swap
unfolding normalize_swap_deposit
deposit-venue markets event n keyed h = elim (Result-cases (pump_swap_market markets event.pool)) [
  | inl (market, e) ↦
      let fits = (pump_swap_market-FitsKey markets event.pool market keyed e).0 in ground arith
  | inr (error, e) ↦ ground arith
]

withdraw-venue :
    (markets : MarketRegistry) (event : PumpSwapWithdrawEvent) (n : Normalized)
    → IsKeyed markets
    → normalize_swap_withdraw markets event ≡ ok n
    → n.market.venue ≡ Venue.pump_swap
unfolding normalize_swap_withdraw
withdraw-venue markets event n keyed h = elim (Result-cases (pump_swap_market markets event.pool)) [
  | inl (market, e) ↦
      let fits = (pump_swap_market-FitsKey markets event.pool market keyed e).0 in ground arith
  | inr (error, e) ↦ ground arith
]

event-venue :
    (network : Network) (markets : MarketRegistry) (event : PumpEvent) (n : Normalized)
    → IsKeyed markets
    → normalize_event network markets event ≡ ok n
    → n.market.venue ≡ venue_of (emitter event)
unfolding normalize_event normalize_create_pool
event-venue network markets (PumpEvent.create event) n keyed h = ground arith
event-venue network markets (PumpEvent.trade event) n keyed h = trade-venue markets event n keyed h
event-venue network markets (PumpEvent.complete event) n keyed h = ground arith
event-venue network markets (PumpEvent.complete_pump_amm_migration event) n keyed h = ground arith
event-venue network markets (PumpEvent.pump_swap_create_pool event) n keyed h = ground arith
event-venue network markets (PumpEvent.pump_swap_buy event) n keyed h =
    buy-venue markets event n keyed h
event-venue network markets (PumpEvent.pump_swap_sell event) n keyed h =
    sell-venue markets event n keyed h
event-venue network markets (PumpEvent.pump_swap_deposit event) n keyed h =
    deposit-venue markets event n keyed h
event-venue network markets (PumpEvent.pump_swap_withdraw event) n keyed h =
    withdraw-venue markets event n keyed h

-- An event that was decoded from a program's bytes, normalized with a registry whose markets stand under
-- their own keys, gives an observation of that program and of a market on its venue, at the coordinate
-- that was decoded.
pub normalize_pump_event-venue :
    (host : Host) (program_id : String) (coordinate : ChainCoordinate) (bytes : List ℕ)
    (decoded : DecodedPumpEvent) (network : Network) (commitment : Commitment) (received : ℤ)
    (evidence : List ℕ) (markets : MarketRegistry) (result : NormalizedPumpEvent)
    → decode_anchor_event program_id coordinate bytes ≡ ok decoded
    → IsKeyed markets
    → normalize_pump_event host decoded network commitment received evidence markets ≡ ok result
    → (result.observation.market.venue ≡ venue_of decoded.program)
      × (result.observation.key.program ≡ source_program decoded.program)
      × (result.observation.key.coordinate ≡ coordinate)
unfolding normalize_pump_event
normalize_pump_event-venue host program_id coordinate bytes decoded network commitment received
      evidence markets result d keyed h =
    let attributed = decode_anchor_event-Attribution program_id coordinate bytes decoded d in
    let passed = (reject_if-eq-ok (not (host.represents decoded.event)) source_details _ h).1 in
    elim (Result-cases (normalize_event network markets decoded.event)) [
      | inl (n, e) ↦
          at_ok
            (λ (r : NormalizedPumpEvent).
              (r.observation.market.venue ≡ venue_of decoded.program)
              × (r.observation.key.program ≡ source_program decoded.program)
              × (r.observation.key.coordinate ≡ coordinate))
            (rw e at passed)
            (
              event-venue network markets decoded.event n keyed e ∙ ap venue_of attributed.pinned.0,
              refl,
              attributed.at_coordinate,
            )
      | inr (error, e) ↦ cc (rw e at passed)
    ]
