-- ===== src/Pump/Events/Framed.antt =====
-- Every event's decoder reads the same event when more bytes follow (crates/source-pump/src/decoder.rs).
use soldisco.Pump.Reader.Framed.{IsFramed, framed_fields}
use soldisco.Pump.Events.Curve.{
  decode_pump_create, decode_pump_trade, decode_pump_complete, decode_pump_migration,
}
use soldisco.Pump.Events.Swap.{
  decode_pump_swap_create_pool, decode_pump_swap_buy, decode_pump_swap_sell,
  decode_pump_swap_deposit, decode_pump_swap_withdraw,
}

pub decode_pump_create-IsFramed : IsFramed decode_pump_create
unfolding decode_pump_create
decode_pump_create-IsFramed = search framed_fields depth 60 fits 20000

pub decode_pump_trade-IsFramed : IsFramed decode_pump_trade
unfolding decode_pump_trade
decode_pump_trade-IsFramed = search framed_fields depth 60 fits 20000

pub decode_pump_complete-IsFramed : IsFramed decode_pump_complete
unfolding decode_pump_complete
decode_pump_complete-IsFramed = search framed_fields depth 60 fits 20000

pub decode_pump_migration-IsFramed : IsFramed decode_pump_migration
unfolding decode_pump_migration
decode_pump_migration-IsFramed = search framed_fields depth 60 fits 20000

pub decode_pump_swap_create_pool-IsFramed : IsFramed decode_pump_swap_create_pool
unfolding decode_pump_swap_create_pool
decode_pump_swap_create_pool-IsFramed = search framed_fields depth 60 fits 20000

pub decode_pump_swap_buy-IsFramed : IsFramed decode_pump_swap_buy
unfolding decode_pump_swap_buy
decode_pump_swap_buy-IsFramed = search framed_fields depth 60 fits 20000

pub decode_pump_swap_sell-IsFramed : IsFramed decode_pump_swap_sell
unfolding decode_pump_swap_sell
decode_pump_swap_sell-IsFramed = search framed_fields depth 60 fits 20000

pub decode_pump_swap_deposit-IsFramed : IsFramed decode_pump_swap_deposit
unfolding decode_pump_swap_deposit
decode_pump_swap_deposit-IsFramed = search framed_fields depth 60 fits 20000

pub decode_pump_swap_withdraw-IsFramed : IsFramed decode_pump_swap_withdraw
unfolding decode_pump_swap_withdraw
decode_pump_swap_withdraw-IsFramed = search framed_fields depth 60 fits 20000
