-- ===== src/Normalization/Event/Trades.antt =====
-- A normalized trade has amounts (apps/server/src/jobs/normalization.rs).
use soldisco.Prelude.{ℕ, ◌<◌, List, inl, inr, ok, Result-cases, ◌≡◌, arith}
use soldisco.Prelude.Int.{ℤ}
use soldisco.Domain.{Network, Commitment, ObservationPayload, trade}
use soldisco.Pump.Model.{
  PumpEvent, DecodedPumpEvent, PumpTradeEvent, PumpSwapBuyEvent, PumpSwapSellEvent,
}
use soldisco.Normalization.Registry.{MarketRegistry}
use soldisco.Normalization.Event.{
  Host, Normalized, NormalizedPumpEvent, normalize_event, normalize_pump_event, normalize_trade,
  normalize_swap_buy, normalize_swap_sell, normalize_create_pool, normalize_swap_deposit,
  normalize_swap_withdraw,
}

-- A trade moves some of both assets.
abbrev pub MovesBoth : ObservationPayload → Type 0
MovesBoth (trade side wallet base quote base_reserve quote_reserve) = (0 < base) × (0 < quote)
MovesBoth _ = Unit

trade-MovesBoth :
    (markets : MarketRegistry) (event : PumpTradeEvent) (n : Normalized)
    → normalize_trade markets event ≡ ok n
    → MovesBoth n.payload
unfolding normalize_trade
trade-MovesBoth markets event n h = ground arith

buy-MovesBoth :
    (markets : MarketRegistry) (event : PumpSwapBuyEvent) (n : Normalized)
    → normalize_swap_buy markets event ≡ ok n
    → MovesBoth n.payload
unfolding normalize_swap_buy
buy-MovesBoth markets event n h = ground arith

sell-MovesBoth :
    (markets : MarketRegistry) (event : PumpSwapSellEvent) (n : Normalized)
    → normalize_swap_sell markets event ≡ ok n
    → MovesBoth n.payload
unfolding normalize_swap_sell
sell-MovesBoth markets event n h = ground arith

event-MovesBoth :
    (network : Network) (markets : MarketRegistry) (event : PumpEvent) (n : Normalized)
    → normalize_event network markets event ≡ ok n
    → MovesBoth n.payload
unfolding normalize_event normalize_create_pool normalize_swap_deposit normalize_swap_withdraw
event-MovesBoth network markets (PumpEvent.create event) n h = ground arith
event-MovesBoth network markets (PumpEvent.trade event) n h = trade-MovesBoth markets event n h
event-MovesBoth network markets (PumpEvent.complete event) n h = ground arith
event-MovesBoth network markets (PumpEvent.complete_pump_amm_migration event) n h = ground arith
event-MovesBoth network markets (PumpEvent.pump_swap_create_pool event) n h = ground arith
event-MovesBoth network markets (PumpEvent.pump_swap_buy event) n h =
    buy-MovesBoth markets event n h
event-MovesBoth network markets (PumpEvent.pump_swap_sell event) n h =
    sell-MovesBoth markets event n h
event-MovesBoth network markets (PumpEvent.pump_swap_deposit event) n h = ground arith
event-MovesBoth network markets (PumpEvent.pump_swap_withdraw event) n h = ground arith

-- Every observation of a trade that a decoded event is normalized to has a positive base amount and a
-- positive quote amount.
pub normalize_pump_event-MovesBoth :
    (host : Host) (decoded : DecodedPumpEvent) (network : Network) (commitment : Commitment)
    (received : ℤ) (evidence : List ℕ) (markets : MarketRegistry) (result : NormalizedPumpEvent)
    → normalize_pump_event host decoded network commitment received evidence markets ≡ ok result
    → MovesBoth result.observation.payload
unfolding normalize_pump_event
normalize_pump_event-MovesBoth host decoded network commitment received evidence markets result h =
    elim (Result-cases (normalize_event network markets decoded.event)) [
      | inl (n, e) ↦ let moves = event-MovesBoth network markets decoded.event n e in ground arith
      | inr (error, e) ↦ ground arith
    ]
