-- ===== src/Normalization/Event/Oriented.antt =====
-- With every market under its own key, no event lacks a pool's orientation
-- (apps/server/src/jobs/normalization.rs).
use soldisco.Prelude.{ℕ, List, inl, inr, err, Result-cases, ◌≢◌, arith}
use soldisco.Prelude.Int.{ℤ}
use soldisco.Domain.{Network, Commitment}
use soldisco.Pump.Model.{
  PumpEvent, DecodedPumpEvent, PumpSwapBuyEvent, PumpSwapSellEvent, PumpSwapDepositEvent,
  PumpSwapWithdrawEvent,
}
use soldisco.Normalization.Registry.{
  MarketRegistry, pump_market, pump_swap_market, pump_swap_source_orientation_required,
}
use soldisco.Normalization.Registry.Keyed.{IsKeyed}
use soldisco.Normalization.Event.{
  Host, normalize_event, normalize_pump_event, normalize_trade, normalize_swap_buy,
  normalize_swap_sell, normalize_create_pool, normalize_swap_deposit, normalize_swap_withdraw,
}
use soldisco.Normalization.Event.Venues.{pump_swap_market-FitsKey}

buy_oriented :
    (markets : MarketRegistry) (event : PumpSwapBuyEvent)
    → IsKeyed markets
    → normalize_swap_buy markets event ≢ err pump_swap_source_orientation_required
unfolding normalize_swap_buy pump_swap_market
buy_oriented markets event keyed h = elim (Result-cases (pump_swap_market markets event.pool)) [
  | inl (market, e) ↦
      let oriented = (pump_swap_market-FitsKey markets event.pool market keyed e).2 in
      ground (arith, oriented.1)
  | inr (error, e) ↦ ground arith
]

sell_oriented :
    (markets : MarketRegistry) (event : PumpSwapSellEvent)
    → IsKeyed markets
    → normalize_swap_sell markets event ≢ err pump_swap_source_orientation_required
unfolding normalize_swap_sell pump_swap_market
sell_oriented markets event keyed h = elim (Result-cases (pump_swap_market markets event.pool)) [
  | inl (market, e) ↦
      let oriented = (pump_swap_market-FitsKey markets event.pool market keyed e).2 in
      ground (arith, oriented.1)
  | inr (error, e) ↦ ground arith
]

deposit_oriented :
    (markets : MarketRegistry) (event : PumpSwapDepositEvent)
    → IsKeyed markets
    → normalize_swap_deposit markets event ≢ err pump_swap_source_orientation_required
unfolding normalize_swap_deposit pump_swap_market
deposit_oriented markets event keyed h = elim (Result-cases (pump_swap_market markets event.pool)) [
  | inl (market, e) ↦
      let oriented = (pump_swap_market-FitsKey markets event.pool market keyed e).2 in
      ground (arith, oriented.1)
  | inr (error, e) ↦ ground arith
]

withdraw_oriented :
    (markets : MarketRegistry) (event : PumpSwapWithdrawEvent)
    → IsKeyed markets
    → normalize_swap_withdraw markets event ≢ err pump_swap_source_orientation_required
unfolding normalize_swap_withdraw pump_swap_market
withdraw_oriented markets event keyed h =
    elim (Result-cases (pump_swap_market markets event.pool)) [
      | inl (market, e) ↦
          let oriented = (pump_swap_market-FitsKey markets event.pool market keyed e).2 in
          ground (arith, oriented.1)
      | inr (error, e) ↦ ground arith
    ]

event_oriented :
    (network : Network) (markets : MarketRegistry) (event : PumpEvent)
    → IsKeyed markets
    → normalize_event network markets event ≢ err pump_swap_source_orientation_required
unfolding normalize_event normalize_create_pool normalize_trade pump_market
event_oriented network markets (PumpEvent.create event) keyed h = ground arith
event_oriented network markets (PumpEvent.trade event) keyed h = ground arith
event_oriented network markets (PumpEvent.complete event) keyed h = ground arith
event_oriented network markets (PumpEvent.complete_pump_amm_migration event) keyed h = ground arith
event_oriented network markets (PumpEvent.pump_swap_create_pool event) keyed h = ground arith
event_oriented network markets (PumpEvent.pump_swap_buy event) keyed h =
    buy_oriented markets event keyed h
event_oriented network markets (PumpEvent.pump_swap_sell event) keyed h =
    sell_oriented markets event keyed h
event_oriented network markets (PumpEvent.pump_swap_deposit event) keyed h =
    deposit_oriented markets event keyed h
event_oriented network markets (PumpEvent.pump_swap_withdraw event) keyed h =
    withdraw_oriented markets event keyed h

-- With a registry whose markets stand under their own keys, normalizing an event never fails for want of
-- a pool's source orientation.
pub normalize_pump_event_oriented :
    (host : Host) (decoded : DecodedPumpEvent) (network : Network) (commitment : Commitment)
    (received : ℤ) (evidence : List ℕ) (markets : MarketRegistry)
    → IsKeyed markets
    → normalize_pump_event host decoded network commitment received evidence markets
      ≢ err pump_swap_source_orientation_required
unfolding normalize_pump_event
normalize_pump_event_oriented host decoded network commitment received evidence markets keyed h =
    elim (Result-cases (normalize_event network markets decoded.event)) [
      | inl (n, e) ↦ ground arith
      | inr (error, e) ↦ event_oriented network markets decoded.event keyed (ground arith)
    ]
