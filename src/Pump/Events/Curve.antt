-- ===== src/Pump/Events/Curve.antt =====
-- The events of the bonding curve program (crates/source-pump/src/decoder.rs).
use soldisco.Prelude.{if◌then◌else◌}
use soldisco.Pump.Model.{
  PumpCreateEvent, PumpTradeEvent, PumpCompleteEvent, PumpMigrationEvent, buy, sell,
}
use soldisco.Pump.Reader.{
  Read, pure, ◌>>=◌, pubkey, read_string, shareholders, boolean, u64, i64, max_name_bytes,
  max_symbol_bytes, max_uri_bytes, max_instruction_name_bytes,
}

unfoldable pub decode_pump_create : Read PumpCreateEvent
decode_pump_create = do
  name ← read_string "name" max_name_bytes
  symbol ← read_string "symbol" max_symbol_bytes
  uri ← read_string "uri" max_uri_bytes
  mint ← pubkey "mint"
  bonding_curve ← pubkey "bonding_curve"
  user ← pubkey "user"
  creator ← pubkey "creator"
  timestamp ← i64 "timestamp"
  virtual_token_reserves ← u64 "virtual_token_reserves"
  virtual_sol_reserves ← u64 "virtual_sol_reserves"
  real_token_reserves ← u64 "real_token_reserves"
  token_total_supply ← u64 "token_total_supply"
  token_program ← pubkey "token_program"
  is_mayhem_mode ← boolean "is_mayhem_mode"
  is_cashback_enabled ← boolean "is_cashback_enabled"
  quote_mint ← pubkey "quote_mint"
  virtual_quote_reserves ← u64 "virtual_quote_reserves"
  pure (record {
    name = name;
    symbol = symbol;
    uri = uri;
    mint = mint;
    bonding_curve = bonding_curve;
    user = user;
    creator = creator;
    timestamp = timestamp;
    virtual_token_reserves = virtual_token_reserves;
    virtual_sol_reserves = virtual_sol_reserves;
    real_token_reserves = real_token_reserves;
    token_total_supply = token_total_supply;
    token_program = token_program;
    is_mayhem_mode = is_mayhem_mode;
    is_cashback_enabled = is_cashback_enabled;
    quote_mint = quote_mint;
    virtual_quote_reserves = virtual_quote_reserves;
  })

unfoldable pub decode_pump_trade : Read PumpTradeEvent
decode_pump_trade = do
  mint ← pubkey "mint"
  legacy_sol_amount ← u64 "sol_amount"
  token_amount ← u64 "token_amount"
  is_buy ← boolean "is_buy"
  user ← pubkey "user"
  timestamp ← i64 "timestamp"
  virtual_sol_reserves ← u64 "virtual_sol_reserves"
  virtual_token_reserves ← u64 "virtual_token_reserves"
  real_sol_reserves ← u64 "real_sol_reserves"
  real_token_reserves ← u64 "real_token_reserves"
  fee_recipient ← pubkey "fee_recipient"
  fee_basis_points ← u64 "fee_basis_points"
  fee_amount ← u64 "fee"
  creator ← pubkey "creator"
  creator_fee_basis_points ← u64 "creator_fee_basis_points"
  creator_fee_amount ← u64 "creator_fee"
  track_volume ← boolean "track_volume"
  total_unclaimed_tokens ← u64 "total_unclaimed_tokens"
  total_claimed_tokens ← u64 "total_claimed_tokens"
  current_sol_volume ← u64 "current_sol_volume"
  last_update_timestamp ← i64 "last_update_timestamp"
  instruction_name ← read_string "ix_name" max_instruction_name_bytes
  mayhem_mode ← boolean "mayhem_mode"
  cashback_fee_basis_points ← u64 "cashback_fee_basis_points"
  cashback_amount ← u64 "cashback"
  buyback_fee_basis_points ← u64 "buyback_fee_basis_points"
  buyback_fee_amount ← u64 "buyback_fee"
  shareholders ← shareholders
  quote_mint ← pubkey "quote_mint"
  quote_amount ← u64 "quote_amount"
  virtual_quote_reserves ← u64 "virtual_quote_reserves"
  real_quote_reserves ← u64 "real_quote_reserves"
  pure (record {
    mint = mint;
    legacy_sol_amount = legacy_sol_amount;
    token_amount = token_amount;
    direction = if is_buy then buy else sell;
    user = user;
    timestamp = timestamp;
    virtual_sol_reserves = virtual_sol_reserves;
    virtual_token_reserves = virtual_token_reserves;
    real_sol_reserves = real_sol_reserves;
    real_token_reserves = real_token_reserves;
    fee_recipient = fee_recipient;
    fee_basis_points = fee_basis_points;
    fee_amount = fee_amount;
    creator = creator;
    creator_fee_basis_points = creator_fee_basis_points;
    creator_fee_amount = creator_fee_amount;
    track_volume = track_volume;
    total_unclaimed_tokens = total_unclaimed_tokens;
    total_claimed_tokens = total_claimed_tokens;
    current_sol_volume = current_sol_volume;
    last_update_timestamp = last_update_timestamp;
    instruction_name = instruction_name;
    mayhem_mode = mayhem_mode;
    cashback_fee_basis_points = cashback_fee_basis_points;
    cashback_amount = cashback_amount;
    buyback_fee_basis_points = buyback_fee_basis_points;
    buyback_fee_amount = buyback_fee_amount;
    shareholders = shareholders;
    quote_mint = quote_mint;
    quote_amount = quote_amount;
    virtual_quote_reserves = virtual_quote_reserves;
    real_quote_reserves = real_quote_reserves;
  })

unfoldable pub decode_pump_complete : Read PumpCompleteEvent
decode_pump_complete = do
  user ← pubkey "user"
  mint ← pubkey "mint"
  bonding_curve ← pubkey "bonding_curve"
  timestamp ← i64 "timestamp"
  quote_mint ← pubkey "quote_mint"
  pure (record {
    user = user;
    mint = mint;
    bonding_curve = bonding_curve;
    timestamp = timestamp;
    quote_mint = quote_mint;
  })

unfoldable pub decode_pump_migration : Read PumpMigrationEvent
decode_pump_migration = do
  user ← pubkey "user"
  mint ← pubkey "mint"
  mint_amount ← u64 "mint_amount"
  legacy_sol_amount ← u64 "sol_amount"
  pool_migration_fee ← u64 "pool_migration_fee"
  bonding_curve ← pubkey "bonding_curve"
  timestamp ← i64 "timestamp"
  pool ← pubkey "pool"
  quote_mint ← pubkey "quote_mint"
  pure (record {
    user = user;
    mint = mint;
    mint_amount = mint_amount;
    legacy_sol_amount = legacy_sol_amount;
    pool_migration_fee = pool_migration_fee;
    bonding_curve = bonding_curve;
    timestamp = timestamp;
    pool = pool;
    quote_mint = quote_mint;
  })
