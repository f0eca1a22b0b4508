-- ===== src/Pump/Events/Dispatch.antt =====
-- crates/source-pump/src/decoder.rs: the match of decode_anchor_event on the program and the discriminator.
use soldisco.Prelude.{ℕ, List, if◌then◌else◌}
use soldisco.Pump.{
  PumpProgram, pump, pump_swap, bytes_eq, create_event_discriminator, trade_event_discriminator,
  complete_event_discriminator, complete_pump_amm_migration_event_discriminator,
  create_pool_event_discriminator, pump_swap_buy_event_discriminator,
  pump_swap_sell_event_discriminator, pump_swap_deposit_event_discriminator,
  pump_swap_withdraw_event_discriminator,
}
use soldisco.Pump.Model.{PumpEvent}
use soldisco.Pump.Reader.{Read, pure, fail, ◌>>=◌, unknown_discriminator}
use soldisco.Pump.Events.Curve.{
  decode_pump_create, decode_pump_trade, decode_pump_complete, decode_pump_migration,
}
use soldisco.Pump.Events.Swap.{
  decode_pump_swap_create_pool, decode_pump_swap_buy, decode_pump_swap_sell,
  decode_pump_swap_deposit, decode_pump_swap_withdraw,
}

-- PumpEvent::Variant(decode(&mut reader)?)
unfoldable pub wrapped {ℓ} : {A : Type ℓ} → (A → PumpEvent) → Read A → Read PumpEvent
wrapped variant fields = do event ← fields; pure (variant event)

unfoldable pub decode_event : PumpProgram → List ℕ → Read PumpEvent
decode_event pump discriminator =
    if bytes_eq discriminator create_event_discriminator
    then wrapped PumpEvent.create decode_pump_create
    else if bytes_eq discriminator trade_event_discriminator
    then wrapped PumpEvent.trade decode_pump_trade
    else if bytes_eq discriminator complete_event_discriminator
    then wrapped PumpEvent.complete decode_pump_complete
    else if bytes_eq discriminator complete_pump_amm_migration_event_discriminator
    then wrapped PumpEvent.complete_pump_amm_migration decode_pump_migration
    else fail (unknown_discriminator pump discriminator)
decode_event pump_swap discriminator =
    if bytes_eq discriminator create_pool_event_discriminator
    then wrapped PumpEvent.pump_swap_create_pool decode_pump_swap_create_pool
    else if bytes_eq discriminator pump_swap_buy_event_discriminator
    then wrapped PumpEvent.pump_swap_buy decode_pump_swap_buy
    else if bytes_eq discriminator pump_swap_sell_event_discriminator
    then wrapped PumpEvent.pump_swap_sell decode_pump_swap_sell
    else if bytes_eq discriminator pump_swap_deposit_event_discriminator
    then wrapped PumpEvent.pump_swap_deposit decode_pump_swap_deposit
    else if bytes_eq discriminator pump_swap_withdraw_event_discriminator
    then wrapped PumpEvent.pump_swap_withdraw decode_pump_swap_withdraw
    else fail (unknown_discriminator pump_swap discriminator)
