-- ===== src/Pump/Events/Swap.antt =====
-- The events of the swap program (crates/source-pump/src/decoder.rs).
use soldisco.Pump.Model.{
  PumpSwapCreatePoolEvent, PumpSwapBuyEvent, PumpSwapSellEvent, PumpSwapDepositEvent,
  PumpSwapWithdrawEvent,
}
use soldisco.Pump.Reader.{
  Read, pure, ◌>>=◌, pubkey, read_string, boolean, u8, u16, u64, i64, i128,
  max_instruction_name_bytes,
}

unfoldable pub decode_pump_swap_create_pool : Read PumpSwapCreatePoolEvent
decode_pump_swap_create_pool = do
  timestamp ← i64 "timestamp"
  index ← u16 "index"
  creator ← pubkey "creator"
  base_mint ← pubkey "base_mint"
  quote_mint ← pubkey "quote_mint"
  base_mint_decimals ← u8 "base_mint_decimals"
  quote_mint_decimals ← u8 "quote_mint_decimals"
  base_amount_in ← u64 "base_amount_in"
  quote_amount_in ← u64 "quote_amount_in"
  pool_base_amount ← u64 "pool_base_amount"
  pool_quote_amount ← u64 "pool_quote_amount"
  minimum_liquidity ← u64 "minimum_liquidity"
  initial_liquidity ← u64 "initial_liquidity"
  lp_token_amount_out ← u64 "lp_token_amount_out"
  pool_bump ← u8 "pool_bump"
  pool ← pubkey "pool"
  lp_mint ← pubkey "lp_mint"
  user_base_token_account ← pubkey "user_base_token_account"
  user_quote_token_account ← pubkey "user_quote_token_account"
  coin_creator ← pubkey "coin_creator"
  is_mayhem_mode ← boolean "is_mayhem_mode"
  pure (record {
    timestamp = timestamp;
    index = index;
    creator = creator;
    base_mint = base_mint;
    quote_mint = quote_mint;
    base_mint_decimals = base_mint_decimals;
    quote_mint_decimals = quote_mint_decimals;
    base_amount_in = base_amount_in;
    quote_amount_in = quote_amount_in;
    pool_base_amount = pool_base_amount;
    pool_quote_amount = pool_quote_amount;
    minimum_liquidity = minimum_liquidity;
    initial_liquidity = initial_liquidity;
    lp_token_amount_out = lp_token_amount_out;
    pool_bump = pool_bump;
    pool = pool;
    lp_mint = lp_mint;
    user_base_token_account = user_base_token_account;
    user_quote_token_account = user_quote_token_account;
    coin_creator = coin_creator;
    is_mayhem_mode = is_mayhem_mode;
  })

unfoldable pub decode_pump_swap_buy : Read PumpSwapBuyEvent
decode_pump_swap_buy = do
  timestamp ← i64 "timestamp"
  base_amount_out ← u64 "base_amount_out"
  max_quote_amount_in ← u64 "max_quote_amount_in"
  user_base_token_reserves ← u64 "user_base_token_reserves"
  user_quote_token_reserves ← u64 "user_quote_token_reserves"
  pool_base_token_reserves ← u64 "pool_base_token_reserves"
  pool_quote_token_reserves ← u64 "pool_quote_token_reserves"
  quote_amount_in ← u64 "quote_amount_in"
  lp_fee_basis_points ← u64 "lp_fee_basis_points"
  lp_fee_amount ← u64 "lp_fee"
  protocol_fee_basis_points ← u64 "protocol_fee_basis_points"
  protocol_fee_amount ← u64 "protocol_fee"
  quote_amount_in_with_lp_fee ← u64 "quote_amount_in_with_lp_fee"
  user_quote_amount_in ← u64 "user_quote_amount_in"
  pool ← pubkey "pool"
  user ← pubkey "user"
  user_base_token_account ← pubkey "user_base_token_account"
  user_quote_token_account ← pubkey "user_quote_token_account"
  protocol_fee_recipient ← pubkey "protocol_fee_recipient"
  protocol_fee_recipient_token_account ← pubkey "protocol_fee_recipient_token_account"
  coin_creator ← pubkey "coin_creator"
  coin_creator_fee_basis_points ← u64 "coin_creator_fee_basis_points"
  coin_creator_fee_amount ← u64 "coin_creator_fee"
  track_volume ← boolean "track_volume"
  total_unclaimed_tokens ← u64 "total_unclaimed_tokens"
  total_claimed_tokens ← u64 "total_claimed_tokens"
  current_sol_volume ← u64 "current_sol_volume"
  last_update_timestamp ← i64 "last_update_timestamp"
  min_base_amount_out ← u64 "min_base_amount_out"
  instruction_name ← read_string "ix_name" max_instruction_name_bytes
  cashback_fee_basis_points ← u64 "cashback_fee_basis_points"
  cashback_amount ← u64 "cashback"
  buyback_fee_basis_points ← u64 "buyback_fee_basis_points"
  buyback_fee_amount ← u64 "buyback_fee"
  virtual_quote_reserves ← i128 "virtual_quote_reserves"
  can_boost ← boolean "can_boost"
  base_supply ← u64 "base_supply"
  pure (record {
    timestamp = timestamp;
    base_amount_out = base_amount_out;
    max_quote_amount_in = max_quote_amount_in;
    user_base_token_reserves = user_base_token_reserves;
    user_quote_token_reserves = user_quote_token_reserves;
    pool_base_token_reserves = pool_base_token_reserves;
    pool_quote_token_reserves = pool_quote_token_reserves;
    quote_amount_in = quote_amount_in;
    lp_fee_basis_points = lp_fee_basis_points;
    lp_fee_amount = lp_fee_amount;
    protocol_fee_basis_points = protocol_fee_basis_points;
    protocol_fee_amount = protocol_fee_amount;
    quote_amount_in_with_lp_fee = quote_amount_in_with_lp_fee;
    user_quote_amount_in = user_quote_amount_in;
    pool = pool;
    user = user;
    user_base_token_account = user_base_token_account;
    user_quote_token_account = user_quote_token_account;
    protocol_fee_recipient = protocol_fee_recipient;
    protocol_fee_recipient_token_account = protocol_fee_recipient_token_account;
    coin_creator = coin_creator;
    coin_creator_fee_basis_points = coin_creator_fee_basis_points;
    coin_creator_fee_amount = coin_creator_fee_amount;
    track_volume = track_volume;
    total_unclaimed_tokens = total_unclaimed_tokens;
    total_claimed_tokens = total_claimed_tokens;
    current_sol_volume = current_sol_volume;
    last_update_timestamp = last_update_timestamp;
    min_base_amount_out = min_base_amount_out;
    instruction_name = instruction_name;
    cashback_fee_basis_points = cashback_fee_basis_points;
    cashback_amount = cashback_amount;
    buyback_fee_basis_points = buyback_fee_basis_points;
    buyback_fee_amount = buyback_fee_amount;
    virtual_quote_reserves = virtual_quote_reserves;
    can_boost = can_boost;
    base_supply = base_supply;
  })

unfoldable pub decode_pump_swap_sell : Read PumpSwapSellEvent
decode_pump_swap_sell = do
  timestamp ← i64 "timestamp"
  base_amount_in ← u64 "base_amount_in"
  min_quote_amount_out ← u64 "min_quote_amount_out"
  user_base_token_reserves ← u64 "user_base_token_reserves"
  user_quote_token_reserves ← u64 "user_quote_token_reserves"
  pool_base_token_reserves ← u64 "pool_base_token_reserves"
  pool_quote_token_reserves ← u64 "pool_quote_token_reserves"
  quote_amount_out ← u64 "quote_amount_out"
  lp_fee_basis_points ← u64 "lp_fee_basis_points"
  lp_fee_amount ← u64 "lp_fee"
  protocol_fee_basis_points ← u64 "protocol_fee_basis_points"
  protocol_fee_amount ← u64 "protocol_fee"
  quote_amount_out_without_lp_fee ← u64 "quote_amount_out_without_lp_fee"
  user_quote_amount_out ← u64 "user_quote_amount_out"
  pool ← pubkey "pool"
  user ← pubkey "user"
  user_base_token_account ← pubkey "user_base_token_account"
  user_quote_token_account ← pubkey "user_quote_token_account"
  protocol_fee_recipient ← pubkey "protocol_fee_recipient"
  protocol_fee_recipient_token_account ← pubkey "protocol_fee_recipient_token_account"
  coin_creator ← pubkey "coin_creator"
  coin_creator_fee_basis_points ← u64 "coin_creator_fee_basis_points"
  coin_creator_fee_amount ← u64 "coin_creator_fee"
  cashback_fee_basis_points ← u64 "cashback_fee_basis_points"
  cashback_amount ← u64 "cashback"
  buyback_fee_basis_points ← u64 "buyback_fee_basis_points"
  buyback_fee_amount ← u64 "buyback_fee"
  virtual_quote_reserves ← i128 "virtual_quote_reserves"
  can_boost ← boolean "can_boost"
  base_supply ← u64 "base_supply"
  pure (record {
    timestamp = timestamp;
    base_amount_in = base_amount_in;
    min_quote_amount_out = min_quote_amount_out;
    user_base_token_reserves = user_base_token_reserves;
    user_quote_token_reserves = user_quote_token_reserves;
    pool_base_token_reserves = pool_base_token_reserves;
    pool_quote_token_reserves = pool_quote_token_reserves;
    quote_amount_out = quote_amount_out;
    lp_fee_basis_points = lp_fee_basis_points;
    lp_fee_amount = lp_fee_amount;
    protocol_fee_basis_points = protocol_fee_basis_points;
    protocol_fee_amount = protocol_fee_amount;
    quote_amount_out_without_lp_fee = quote_amount_out_without_lp_fee;
    user_quote_amount_out = user_quote_amount_out;
    pool = pool;
    user = user;
    user_base_token_account = user_base_token_account;
    user_quote_token_account = user_quote_token_account;
    protocol_fee_recipient = protocol_fee_recipient;
    protocol_fee_recipient_token_account = protocol_fee_recipient_token_account;
    coin_creator = coin_creator;
    coin_creator_fee_basis_points = coin_creator_fee_basis_points;
    coin_creator_fee_amount = coin_creator_fee_amount;
    cashback_fee_basis_points = cashback_fee_basis_points;
    cashback_amount = cashback_amount;
    buyback_fee_basis_points = buyback_fee_basis_points;
    buyback_fee_amount = buyback_fee_amount;
    virtual_quote_reserves = virtual_quote_reserves;
    can_boost = can_boost;
    base_supply = base_supply;
  })

unfoldable pub decode_pump_swap_deposit : Read PumpSwapDepositEvent
decode_pump_swap_deposit = do
  timestamp ← i64 "timestamp"
  lp_token_amount_out ← u64 "lp_token_amount_out"
  max_base_amount_in ← u64 "max_base_amount_in"
  max_quote_amount_in ← u64 "max_quote_amount_in"
  user_base_token_reserves ← u64 "user_base_token_reserves"
  user_quote_token_reserves ← u64 "user_quote_token_reserves"
  pool_base_token_reserves ← u64 "pool_base_token_reserves"
  pool_quote_token_reserves ← u64 "pool_quote_token_reserves"
  base_amount_in ← u64 "base_amount_in"
  quote_amount_in ← u64 "quote_amount_in"
  lp_mint_supply ← u64 "lp_mint_supply"
  pool ← pubkey "pool"
  user ← pubkey "user"
  user_base_token_account ← pubkey "user_base_token_account"
  user_quote_token_account ← pubkey "user_quote_token_account"
  user_pool_token_account ← pubkey "user_pool_token_account"
  pure (record {
    timestamp = timestamp;
    lp_token_amount_out = lp_token_amount_out;
    max_base_amount_in = max_base_amount_in;
    max_quote_amount_in = max_quote_amount_in;
    user_base_token_reserves = user_base_token_reserves;
    user_quote_token_reserves = user_quote_token_reserves;
    pool_base_token_reserves = pool_base_token_reserves;
    pool_quote_token_reserves = pool_quote_token_reserves;
    base_amount_in = base_amount_in;
    quote_amount_in = quote_amount_in;
    lp_mint_supply = lp_mint_supply;
    pool = pool;
    user = user;
    user_base_token_account = user_base_token_account;
    user_quote_token_account = user_quote_token_account;
    user_pool_token_account = user_pool_token_account;
  })

unfoldable pub decode_pump_swap_withdraw : Read PumpSwapWithdrawEvent
decode_pump_swap_withdraw = do
  timestamp ← i64 "timestamp"
  lp_token_amount_in ← u64 "lp_token_amount_in"
  min_base_amount_out ← u64 "min_base_amount_out"
  min_quote_amount_out ← u64 "min_quote_amount_out"
  user_base_token_reserves ← u64 "user_base_token_reserves"
  user_quote_token_reserves ← u64 "user_quote_token_reserves"
  pool_base_token_reserves ← u64 "pool_base_token_reserves"
  pool_quote_token_reserves ← u64 "pool_quote_token_reserves"
  base_amount_out ← u64 "base_amount_out"
  quote_amount_out ← u64 "quote_amount_out"
  lp_mint_supply ← u64 "lp_mint_supply"
  pool ← pubkey "pool"
  user ← pubkey "user"
  user_base_token_account ← pubkey "user_base_token_account"
  user_quote_token_account ← pubkey "user_quote_token_account"
  user_pool_token_account ← pubkey "user_pool_token_account"
  pure (record {
    timestamp = timestamp;
    lp_token_amount_in = lp_token_amount_in;
    min_base_amount_out = min_base_amount_out;
    min_quote_amount_out = min_quote_amount_out;
    user_base_token_reserves = user_base_token_reserves;
    user_quote_token_reserves = user_quote_token_reserves;
    pool_base_token_reserves = pool_base_token_reserves;
    pool_quote_token_reserves = pool_quote_token_reserves;
    base_amount_out = base_amount_out;
    quote_amount_out = quote_amount_out;
    lp_mint_supply = lp_mint_supply;
    pool = pool;
    user = user;
    user_base_token_account = user_base_token_account;
    user_quote_token_account = user_quote_token_account;
    user_pool_token_account = user_pool_token_account;
  })
