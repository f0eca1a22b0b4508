-- ===== src/Tests/Markets.antt =====
-- Markets and observations of apps/server/src/jobs at concrete events.
use soldisco.Prelude.{List, [], ◌∷◌, some, none, false, true, ok, ◌≡◌, ◌↔◌, refl}
use soldisco.Prelude.Int.{pos}
use soldisco.Domain.{ChainCoordinate, MarketIdentity, solana_mainnet, confirmed, TradeSide, trade}
use soldisco.Qualification.Policy.{wrapped_sol_mint}
use soldisco.Pump.{pump_swap, source_program}
use soldisco.Pump.Model.{
  PumpEvent, DecodedPumpEvent, PumpSwapBuyEvent, PumpSwapSellEvent, source_event_time_unix_seconds,
  timestamp_of,
}
use soldisco.Normalization.Pair.{
  PumpSwapPair, base_is_token, is_supported_quote_mint, normalize_pump_swap_pair,
}
use soldisco.Normalization.Pair.Mirror.{OrientedPair, normalize_pump_swap_pair-OrientedPair}
use soldisco.Normalization.Registry.{
  MarketRegistry, register_pump_swap_pool, pump_swap_market, pump_swap_market_identity, insert,
  remove, get,
}
use soldisco.Normalization.Registry.Keyed.{
  IsKeyed, RegistryCall, registers_pool, retires, call_all, call_all-IsKeyed,
}
use soldisco.Normalization.Event.{
  Host, NormalizedPumpEvent, normalize_pump_event, normalize_event, normalize_swap_buy,
  normalize_swap_sell, event_time, evidence_hash,
}
use soldisco.Normalization.Event.Trades.{MovesBoth, normalize_pump_event-MovesBoth}
use soldisco.Normalization.Event.Pools.{Mirrors, normalize_swap_buy-mirror}

abbrev sol_pair : PumpSwapPair
sol_pair = record {
  token_mint = "mint";
  quote_mint = wrapped_sol_mint;
  source_orientation = base_is_token;
}

paired : normalize_pump_swap_pair solana_mainnet "mint" wrapped_sol_mint ≡ some sol_pair
unfolding normalize_pump_swap_pair is_supported_quote_mint
paired = refl

normalize_pump_swap_pair-OrientedPair_example :
    (normalize_pump_swap_pair solana_mainnet "mint" wrapped_sol_mint ≡ some sol_pair)
    ↔ OrientedPair solana_mainnet "mint" wrapped_sol_mint sol_pair
normalize_pump_swap_pair-OrientedPair_example =
    normalize_pump_swap_pair-OrientedPair solana_mainnet "mint" wrapped_sol_mint sol_pair

abbrev pool_market : MarketIdentity
pool_market = pump_swap_market_identity solana_mainnet "pool" sol_pair

abbrev two_calls : List RegistryCall
two_calls = registers_pool solana_mainnet "pool" "mint" wrapped_sol_mint ∷ retires "mint" ∷ []

call_all-IsKeyed_example : IsKeyed (call_all [] two_calls)
call_all-IsKeyed_example = call_all-IsKeyed [] two_calls tt

abbrev bought : PumpSwapBuyEvent
bought = record {
  timestamp = pos 1700000000;
  base_amount_out = 10;
  max_quote_amount_in = 30;
  user_base_token_reserves = 0;
  user_quote_token_reserves = 0;
  pool_base_token_reserves = 500;
  pool_quote_token_reserves = 900;
  quote_amount_in = 20;
  lp_fee_basis_points = 0;
  lp_fee_amount = 0;
  protocol_fee_basis_points = 0;
  protocol_fee_amount = 0;
  quote_amount_in_with_lp_fee = 20;
  user_quote_amount_in = 20;
  pool = "pool";
  user = "trader";
  user_base_token_account = "";
  user_quote_token_account = "";
  protocol_fee_recipient = "";
  protocol_fee_recipient_token_account = "";
  coin_creator = "";
  coin_creator_fee_basis_points = 0;
  coin_creator_fee_amount = 0;
  track_volume = false;
  total_unclaimed_tokens = 0;
  total_claimed_tokens = 0;
  current_sol_volume = 0;
  last_update_timestamp = pos 0;
  min_base_amount_out = 0;
  instruction_name = "buy";
  cashback_fee_basis_points = 0;
  cashback_amount = 0;
  buyback_fee_basis_points = 0;
  buyback_fee_amount = 0;
  virtual_quote_reserves = pos 0;
  can_boost = false;
  base_supply = 0;
}

abbrev sold : PumpSwapSellEvent
sold = record {
  timestamp = pos 1700000000;
  base_amount_in = 20;
  min_quote_amount_out = 5;
  user_base_token_reserves = 0;
  user_quote_token_reserves = 0;
  pool_base_token_reserves = 900;
  pool_quote_token_reserves = 500;
  quote_amount_out = 10;
  lp_fee_basis_points = 0;
  lp_fee_amount = 0;
  protocol_fee_basis_points = 0;
  protocol_fee_amount = 0;
  quote_amount_out_without_lp_fee = 10;
  user_quote_amount_out = 10;
  pool = "pool";
  user = "trader";
  user_base_token_account = "";
  user_quote_token_account = "";
  protocol_fee_recipient = "";
  protocol_fee_recipient_token_account = "";
  coin_creator = "";
  coin_creator_fee_basis_points = 0;
  coin_creator_fee_amount = 0;
  cashback_fee_basis_points = 0;
  cashback_amount = 0;
  buyback_fee_basis_points = 0;
  buyback_fee_amount = 0;
  virtual_quote_reserves = pos 0;
  can_boost = false;
  base_supply = 0;
}

mirrored_trades : Mirrors bought sold
mirrored_trades = record {
  same_pool = refl;
  same_user = refl;
  amount_in = refl;
  amount_out = refl;
  base_reserves = refl;
  quote_reserves = refl;
}

normalize_swap_buy-mirror_example :
    normalize_swap_buy
      (register_pump_swap_pool [] solana_mainnet "pool" "mint" wrapped_sol_mint).0
      bought
    ≡ normalize_swap_sell
        (register_pump_swap_pool [] solana_mainnet "pool" wrapped_sol_mint "mint").0
        sold
normalize_swap_buy-mirror_example =
    normalize_swap_buy-mirror [] solana_mainnet "mint" wrapped_sol_mint sol_pair bought sold paired
      mirrored_trades

abbrev place : ChainCoordinate
place = record {
  slot = 5;
  transaction_index = none;
  signature = "sig";
  instruction_index = 2;
  event_index = 0;
}

abbrev decoded_buy : DecodedPumpEvent
decoded_buy = record {
  program = pump_swap;
  coordinate = place;
  event = PumpEvent.pump_swap_buy bought;
}

-- Stand-ins for the crates.
abbrev test_host : Host
test_host = record {
  represents = λ event. true;
  sha256 = λ bytes. bytes;
  base64_encode = λ bytes. "AQ==";
  package_version = "0.1.0";
}

abbrev pool_registry : MarketRegistry
pool_registry = (register_pump_swap_pool [] solana_mainnet "pool" "mint" wrapped_sol_mint).0

abbrev traded : NormalizedPumpEvent
traded = record {
  observation = record {
    key = record {
      network = solana_mainnet;
      program = source_program pump_swap;
      coordinate = place;
    };
    commitment = confirmed;
    schema_version = 1;
    decoder_version = "pump-idl-9c82f61cb711b044a17f770ab8ce9f9bdf78f333-soldisco-0.1.0";
    event_kind = "BUY";
    market = pool_market;
    source_event_time_unix_ms = some (pos 1700000000000);
    received_time_unix_ms = pos 1700000000500;
    raw_evidence_hash = "01";
    source_evidence_base64 = "AQ==";
    payload = trade TradeSide.buy "trader" 10 20 (some 500) (some 900);
  };
  discovered_market = none;
}

normalizes :
    normalize_pump_event test_host decoded_buy solana_mainnet confirmed
      (pos 1700000000500)
      (1 ∷ [])
      pool_registry
    ≡ ok traded
unfolding normalize_pump_event normalize_event normalize_swap_buy pump_swap_market get insert remove
    register_pump_swap_pool normalize_pump_swap_pair is_supported_quote_mint event_time
    evidence_hash source_event_time_unix_seconds timestamp_of
normalizes = refl

normalize_pump_event-MovesBoth_example : MovesBoth traded.observation.payload
normalize_pump_event-MovesBoth_example =
    normalize_pump_event-MovesBoth test_host decoded_buy solana_mainnet confirmed
      (pos 1700000000500) (1 ∷ []) pool_registry traded normalizes
