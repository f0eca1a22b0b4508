-- ===== src/Normalization/Event.antt =====
-- apps/server/src/jobs/normalization.rs: the observation of a decoded event. The hash, the base64 and the
-- JSON encoding are third-party crates' and stand in `Host`, with the version that the build supplies; the
-- JSON value itself, which no modelled operation reads, is left out.
pub mod Trades
pub mod Venues
pub mod Oriented
pub mod Pools
use text.Mathlib.Text.{◌==◌ as str_eq}
use Prim.Native.String.{◌++◌ as concat_text}
use soldisco.Prelude.{
  ℕ, zero, suc, ◌+◌, ◌-◌, ◌*◌, ◌/◌, ◌%◌, ◌^◌, String, Option, none, some, List, [], ◌∷◌, Bool, true,
  false, not, ◌||◌, ◌&&◌, ◌==◌, ltb, leb, Result, ok, err, ◌>>=◌, ◌>>◌, reject_if, ok_or,
  if◌then◌else◌,
}
use soldisco.Prelude.Int.{ℤ, pos, negsuc}
use soldisco.Domain.{
  Network, MarketIdentity, Commitment, NormalizedObservation, ObservationKey, ObservationPayload,
  TradeSide, token_created, market_created, trade, liquidity_deposited, liquidity_withdrawn,
  market_completed, market_migrated, pump_bonding_curve,
}
use soldisco.Pump.{source_program}
use soldisco.Pump.Model.{
  PumpEvent, DecodedPumpEvent, TradeDirection, source_event_time_unix_seconds, PumpSwapBuyEvent,
  PumpSwapSellEvent, PumpTradeEvent, PumpSwapCreatePoolEvent, PumpSwapDepositEvent,
  PumpSwapWithdrawEvent,
}
use soldisco.Normalization.Pair.{
  PumpSwapSourceOrientation, base_is_token, quote_is_token, normalize_pump_swap_pair,
}
use soldisco.Normalization.Registry.{
  MarketRegistry, NormalizationError, zero_trade_amount, quote_mint_mismatch,
  unsupported_pump_swap_pair, source_details, pump_swap_source_orientation_required, pump_market,
  pump_swap_market, pump_swap_market_identity,
}

pub record NormalizedPumpEvent : Type 0 where
  pub observation : NormalizedObservation
  pub discovered_market : Option MarketIdentity

-- What the third-party crates and the build supply.
pub record Host : Type 0 where
  pub represents : PumpEvent → Bool  -- serde_json::to_value succeeds
  pub sha256 : List ℕ → List ℕ
  pub base64_encode : List ℕ → String
  pub package_version : String

abbrev pub decoder_schema_version : ℕ
decoder_schema_version = 1

abbrev pub decoder_version : Host → String
decoder_version host =
    concat_text "pump-idl-9c82f61cb711b044a17f770ab8ce9f9bdf78f333-soldisco-" host.package_version

abbrev pub orient_source_amounts : PumpSwapSourceOrientation → ℕ → ℕ → ℕ × ℕ
orient_source_amounts base_is_token source_base_units source_quote_units =
    (source_base_units, source_quote_units)
orient_source_amounts quote_is_token source_base_units source_quote_units =
    (source_quote_units, source_base_units)

abbrev pub trade_side : TradeDirection → TradeSide
trade_side TradeDirection.buy = TradeSide.buy
trade_side TradeDirection.sell = TradeSide.sell

abbrev pub require_non_zero_trade_amounts : ℕ → ℕ → Result NormalizationError (Unit {0})
require_non_zero_trade_amounts base_amount_units quote_amount_units =
    reject_if (base_amount_units == 0 || quote_amount_units == 0) zero_trade_amount

abbrev hex_digit : ℕ → String
hex_digit d =
    if d == 0
    then "0"
    else if d == 1
    then "1"
    else if d == 2
    then "2"
    else if d == 3
    then "3"
    else if d == 4
    then "4"
    else if d == 5
    then "5"
    else if d == 6
    then "6"
    else if d == 7
    then "7"
    else if d == 8
    then "8"
    else if d == 9
    then "9"
    else if d == 10
    then "a"
    else if d == 11
    then "b"
    else if d == 12
    then "c"
    else if d == 13
    then "d"
    else if d == 14
    then "e"
    else "f"

abbrev hex : List ℕ → String
hex [] = ""
hex (byte ∷ bytes) =
    concat_text (hex_digit (byte / 16)) (concat_text (hex_digit (byte % 16)) (hex bytes))

unfoldable pub evidence_hash : Host → List ℕ → String
evidence_hash host raw_evidence = hex (host.sha256 raw_evidence)

-- checked_mul(1_000).filter(|timestamp| *timestamp >= 0): a negative product is none either way.
unfoldable pub event_time : ℤ → Option ℤ
event_time (pos seconds) =
    if ltb (seconds * 1000) (2 ^ 63) then some (pos (seconds * 1000)) else none
event_time (negsuc seconds) = none

-- The kind, the market, the payload and the discovered market of an event.
pub record Normalized : Type 0 where
  pub event_kind : String
  pub market : MarketIdentity
  pub payload : ObservationPayload
  pub discovered_market : Option MarketIdentity

abbrev pub bonding_curve_market : Network → String → String → String → MarketIdentity
bonding_curve_market network mint bonding_curve quote_mint = record {
  network = network;
  mint = mint;
  venue = pump_bonding_curve;
  market_address = bonding_curve;
  quote_mint = some quote_mint;
}

abbrev quotes_in : MarketIdentity → String → Bool
quotes_in market mint = elim market.quote_mint [
  | none ↦ false
  | some quote_mint ↦ str_eq quote_mint mint
]

unfoldable pub normalize_trade :
    MarketRegistry → PumpTradeEvent → Result NormalizationError Normalized
normalize_trade markets event = do
  require_non_zero_trade_amounts event.token_amount event.quote_amount
  market ← pump_market markets event.mint
  reject_if (not (quotes_in market event.quote_mint)) (quote_mint_mismatch event.mint)
  ok (record {
    event_kind = "TRADE";
    market = market;
    payload =
        trade (trade_side event.direction) event.user event.token_amount event.quote_amount
          (some event.virtual_token_reserves) (some event.virtual_quote_reserves);
    discovered_market = none;
  })

unfoldable pub normalize_create_pool :
    Network → PumpSwapCreatePoolEvent → Result NormalizationError Normalized
normalize_create_pool network event = do
  pair ←
      ok_or (normalize_pump_swap_pair network event.base_mint event.quote_mint)
        (unsupported_pump_swap_pair event.base_mint event.quote_mint)
  let market = pump_swap_market_identity network event.pool pair
  let amounts =
      orient_source_amounts pair.source_orientation event.base_amount_in event.quote_amount_in
  ok (record {
    event_kind = "CREATE_POOL";
    market = market;
    payload = market_created event.creator amounts.0 amounts.1;
    discovered_market = some market;
  })

abbrev pub side_kind : TradeSide → String
side_kind TradeSide.buy = "BUY"
side_kind TradeSide.sell = "SELL"

-- The side and the amounts of a buy and of a sell of the source's base, in token and quote order.
abbrev pub buy_side : PumpSwapSourceOrientation → ℕ → ℕ → TradeSide × ℕ × ℕ
buy_side base_is_token base_amount_out quote_amount_in =
    (TradeSide.buy, base_amount_out, quote_amount_in)
buy_side quote_is_token base_amount_out quote_amount_in =
    (TradeSide.sell, quote_amount_in, base_amount_out)

abbrev pub sell_side : PumpSwapSourceOrientation → ℕ → ℕ → TradeSide × ℕ × ℕ
sell_side base_is_token base_amount_in quote_amount_out =
    (TradeSide.sell, base_amount_in, quote_amount_out)
sell_side quote_is_token base_amount_in quote_amount_out =
    (TradeSide.buy, quote_amount_out, base_amount_in)

unfoldable pub normalize_swap_buy :
    MarketRegistry → PumpSwapBuyEvent → Result NormalizationError Normalized
normalize_swap_buy markets event = do
  require_non_zero_trade_amounts event.base_amount_out event.quote_amount_in
  registered ← pump_swap_market markets event.pool
  source_orientation ←
      ok_or registered.pump_swap_source_orientation pump_swap_source_orientation_required
  let side = buy_side source_orientation event.base_amount_out event.quote_amount_in
  let reserves =
      orient_source_amounts source_orientation event.pool_base_token_reserves
        event.pool_quote_token_reserves
  ok (record {
    event_kind = side_kind side.0;
    market = registered.identity;
    payload = trade side.0 event.user side.1 side.2 (some reserves.0) (some reserves.1);
    discovered_market = none;
  })

unfoldable pub normalize_swap_sell :
    MarketRegistry → PumpSwapSellEvent → Result NormalizationError Normalized
normalize_swap_sell markets event = do
  require_non_zero_trade_amounts event.base_amount_in event.quote_amount_out
  registered ← pump_swap_market markets event.pool
  source_orientation ←
      ok_or registered.pump_swap_source_orientation pump_swap_source_orientation_required
  let side = sell_side source_orientation event.base_amount_in event.quote_amount_out
  let reserves =
      orient_source_amounts source_orientation event.pool_base_token_reserves
        event.pool_quote_token_reserves
  ok (record {
    event_kind = side_kind side.0;
    market = registered.identity;
    payload = trade side.0 event.user side.1 side.2 (some reserves.0) (some reserves.1);
    discovered_market = none;
  })

unfoldable pub normalize_swap_deposit :
    MarketRegistry → PumpSwapDepositEvent → Result NormalizationError Normalized
normalize_swap_deposit markets event = do
  registered ← pump_swap_market markets event.pool
  source_orientation ←
      ok_or registered.pump_swap_source_orientation pump_swap_source_orientation_required
  let amounts = orient_source_amounts source_orientation event.base_amount_in event.quote_amount_in
  let reserves =
      orient_source_amounts source_orientation event.pool_base_token_reserves
        event.pool_quote_token_reserves
  ok (record {
    event_kind = "LIQUIDITY_DEPOSIT";
    market = registered.identity;
    payload =
        liquidity_deposited event.user amounts.0 amounts.1 reserves.0 reserves.1
          event.lp_token_amount_out event.lp_mint_supply;
    discovered_market = none;
  })

unfoldable pub normalize_swap_withdraw :
    MarketRegistry → PumpSwapWithdrawEvent → Result NormalizationError Normalized
normalize_swap_withdraw markets event = do
  registered ← pump_swap_market markets event.pool
  source_orientation ←
      ok_or registered.pump_swap_source_orientation pump_swap_source_orientation_required
  let amounts =
      orient_source_amounts source_orientation event.base_amount_out event.quote_amount_out
  let reserves =
      orient_source_amounts source_orientation event.pool_base_token_reserves
        event.pool_quote_token_reserves
  ok (record {
    event_kind = "LIQUIDITY_WITHDRAW";
    market = registered.identity;
    payload =
        liquidity_withdrawn event.user amounts.0 amounts.1 reserves.0 reserves.1
          event.lp_token_amount_in event.lp_mint_supply;
    discovered_market = none;
  })

-- The match of normalize_pump_event on the event.
unfoldable pub normalize_event :
    Network → MarketRegistry → PumpEvent → Result NormalizationError Normalized
normalize_event network markets (PumpEvent.create event) =
    let market = bonding_curve_market network event.mint event.bonding_curve event.quote_mint in
    ok (record {
      event_kind = "CREATE";
      market = market;
      payload = token_created event.name event.symbol event.uri event.creator event.user;
      discovered_market = some market;
    })
normalize_event network markets (PumpEvent.trade event) = normalize_trade markets event
normalize_event network markets (PumpEvent.complete event) = ok (record {
  event_kind = "COMPLETE";
  market = bonding_curve_market network event.mint event.bonding_curve event.quote_mint;
  payload = market_completed event.user;
  discovered_market = none;
})
normalize_event network markets (PumpEvent.complete_pump_amm_migration event) = ok (record {
  event_kind = "COMPLETE_PUMP_AMM_MIGRATION";
  market = bonding_curve_market network event.mint event.bonding_curve event.quote_mint;
  payload = market_migrated event.user event.pool event.mint_amount event.legacy_sol_amount;
  discovered_market = none;
})
normalize_event network markets (PumpEvent.pump_swap_create_pool event) =
    normalize_create_pool network event
normalize_event network markets (PumpEvent.pump_swap_buy event) = normalize_swap_buy markets event
normalize_event network markets (PumpEvent.pump_swap_sell event) = normalize_swap_sell markets event
normalize_event network markets (PumpEvent.pump_swap_deposit event) =
    normalize_swap_deposit markets event
normalize_event network markets (PumpEvent.pump_swap_withdraw event) =
    normalize_swap_withdraw markets event

unfoldable pub normalize_pump_event :
    Host
    → DecodedPumpEvent
    → Network
    → Commitment
    → ℤ
    → List ℕ
    → MarketRegistry
    → Result NormalizationError NormalizedPumpEvent
normalize_pump_event host decoded network commitment received_time_unix_ms raw_evidence markets = do
  reject_if (not (host.represents decoded.event)) source_details
  normalized ← normalize_event network markets decoded.event
  ok (record {
    observation = record {
      key = record {
        network = network;
        program = source_program decoded.program;
        coordinate = decoded.coordinate;
      };
      commitment = commitment;
      schema_version = decoder_schema_version;
      decoder_version = decoder_version host;
      event_kind = normalized.event_kind;
      market = normalized.market;
      source_event_time_unix_ms = event_time (source_event_time_unix_seconds decoded);
      received_time_unix_ms = received_time_unix_ms;
      raw_evidence_hash = evidence_hash host raw_evidence;
      source_evidence_base64 = host.base64_encode raw_evidence;
      payload = normalized.payload;
    };
    discovered_market = normalized.discovered_market;
  })
