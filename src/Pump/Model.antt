-- ===== src/Pump/Model.antt =====
-- crates/source-pump/src/model.rs: the events of the two Pump programs. Unsigned fields are numbers below
-- their type's bound, i64 and i128 fields are integers.
use soldisco.Prelude.{ℕ, String, Bool, List}
use soldisco.Prelude.Int.{ℤ}
use soldisco.Domain.{ChainCoordinate}
use soldisco.Pump.{PumpProgram}

pub data PumpEventKind : Type 0 where
  create trade liquidity_deposit liquidity_withdraw complete complete_pump_amm_migration
        create_pool :
      PumpEventKind

pub data TradeDirection : Type 0 where
  buy sell : TradeDirection

pub record PumpShareholder : Type 0 where
  pub address : String
  pub share_basis_points : ℕ  -- u16

pub record PumpCreateEvent : Type 0 where
  pub name : String
  pub symbol : String
  pub uri : String
  pub mint : String
  pub bonding_curve : String
  pub user : String
  pub creator : String
  pub timestamp : ℤ
  pub virtual_token_reserves : ℕ  -- u64
  pub virtual_sol_reserves : ℕ  -- u64
  pub real_token_reserves : ℕ  -- u64
  pub token_total_supply : ℕ  -- u64
  pub token_program : String
  pub is_mayhem_mode : Bool
  pub is_cashback_enabled : Bool
  pub quote_mint : String
  pub virtual_quote_reserves : ℕ  -- u64

pub record PumpTradeEvent : Type 0 where
  pub mint : String
  pub legacy_sol_amount : ℕ  -- u64
  pub token_amount : ℕ  -- u64
  pub direction : TradeDirection
  pub user : String
  pub timestamp : ℤ
  pub virtual_sol_reserves : ℕ  -- u64
  pub virtual_token_reserves : ℕ  -- u64
  pub real_sol_reserves : ℕ  -- u64
  pub real_token_reserves : ℕ  -- u64
  pub fee_recipient : String
  pub fee_basis_points : ℕ  -- u64
  pub fee_amount : ℕ  -- u64
  pub creator : String
  pub creator_fee_basis_points : ℕ  -- u64
  pub creator_fee_amount : ℕ  -- u64
  pub track_volume : Bool
  pub total_unclaimed_tokens : ℕ  -- u64
  pub total_claimed_tokens : ℕ  -- u64
  pub current_sol_volume : ℕ  -- u64
  pub last_update_timestamp : ℤ
  pub instruction_name : String
  pub mayhem_mode : Bool
  pub cashback_fee_basis_points : ℕ  -- u64
  pub cashback_amount : ℕ  -- u64
  pub buyback_fee_basis_points : ℕ  -- u64
  pub buyback_fee_amount : ℕ  -- u64
  pub shareholders : List PumpShareholder
  pub quote_mint : String
  pub quote_amount : ℕ  -- u64
  pub virtual_quote_reserves : ℕ  -- u64
  pub real_quote_reserves : ℕ  -- u64

pub record PumpCompleteEvent : Type 0 where
  pub user : String
  pub mint : String
  pub bonding_curve : String
  pub timestamp : ℤ
  pub quote_mint : String

pub record PumpMigrationEvent : Type 0 where
  pub user : String
  pub mint : String
  pub mint_amount : ℕ  -- u64
  pub legacy_sol_amount : ℕ  -- u64
  pub pool_migration_fee : ℕ  -- u64
  pub bonding_curve : String
  pub timestamp : ℤ
  pub pool : String
  pub quote_mint : String

pub record PumpSwapCreatePoolEvent : Type 0 where
  pub timestamp : ℤ
  pub index : ℕ  -- u16
  pub creator : String
  pub base_mint : String
  pub quote_mint : String
  pub base_mint_decimals : ℕ  -- u8
  pub quote_mint_decimals : ℕ  -- u8
  pub base_amount_in : ℕ  -- u64
  pub quote_amount_in : ℕ  -- u64
  pub pool_base_amount : ℕ  -- u64
  pub pool_quote_amount : ℕ  -- u64
  pub minimum_liquidity : ℕ  -- u64
  pub initial_liquidity : ℕ  -- u64
  pub lp_token_amount_out : ℕ  -- u64
  pub pool_bump : ℕ  -- u8
  pub pool : String
  pub lp_mint : String
  pub user_base_token_account : String
  pub user_quote_token_account : String
  pub coin_creator : String
  pub is_mayhem_mode : Bool

pub record PumpSwapBuyEvent : Type 0 where
  pub timestamp : ℤ
  pub base_amount_out : ℕ  -- u64
  pub max_quote_amount_in : ℕ  -- u64
  pub user_base_token_reserves : ℕ  -- u64
  pub user_quote_token_reserves : ℕ  -- u64
  pub pool_base_token_reserves : ℕ  -- u64
  pub pool_quote_token_reserves : ℕ  -- u64
  pub quote_amount_in : ℕ  -- u64
  pub lp_fee_basis_points : ℕ  -- u64
  pub lp_fee_amount : ℕ  -- u64
  pub protocol_fee_basis_points : ℕ  -- u64
  pub protocol_fee_amount : ℕ  -- u64
  pub quote_amount_in_with_lp_fee : ℕ  -- u64
  pub user_quote_amount_in : ℕ  -- u64
  pub pool : String
  pub user : String
  pub user_base_token_account : String
  pub user_quote_token_account : String
  pub protocol_fee_recipient : String
  pub protocol_fee_recipient_token_account : String
  pub coin_creator : String
  pub coin_creator_fee_basis_points : ℕ  -- u64
  pub coin_creator_fee_amount : ℕ  -- u64
  pub track_volume : Bool
  pub total_unclaimed_tokens : ℕ  -- u64
  pub total_claimed_tokens : ℕ  -- u64
  pub current_sol_volume : ℕ  -- u64
  pub last_update_timestamp : ℤ
  pub min_base_amount_out : ℕ  -- u64
  pub instruction_name : String
  pub cashback_fee_basis_points : ℕ  -- u64
  pub cashback_amount : ℕ  -- u64
  pub buyback_fee_basis_points : ℕ  -- u64
  pub buyback_fee_amount : ℕ  -- u64
  pub virtual_quote_reserves : ℤ  -- i128
  pub can_boost : Bool
  pub base_supply : ℕ  -- u64

pub record PumpSwapSellEvent : Type 0 where
  pub timestamp : ℤ
  pub base_amount_in : ℕ  -- u64
  pub min_quote_amount_out : ℕ  -- u64
  pub user_base_token_reserves : ℕ  -- u64
  pub user_quote_token_reserves : ℕ  -- u64
  pub pool_base_token_reserves : ℕ  -- u64
  pub pool_quote_token_reserves : ℕ  -- u64
  pub quote_amount_out : ℕ  -- u64
  pub lp_fee_basis_points : ℕ  -- u64
  pub lp_fee_amount : ℕ  -- u64
  pub protocol_fee_basis_points : ℕ  -- u64
  pub protocol_fee_amount : ℕ  -- u64
  pub quote_amount_out_without_lp_fee : ℕ  -- u64
  pub user_quote_amount_out : ℕ  -- u64
  pub pool : String
  pub user : String
  pub user_base_token_account : String
  pub user_quote_token_account : String
  pub protocol_fee_recipient : String
  pub protocol_fee_recipient_token_account : String
  pub coin_creator : String
  pub coin_creator_fee_basis_points : ℕ  -- u64
  pub coin_creator_fee_amount : ℕ  -- u64
  pub cashback_fee_basis_points : ℕ  -- u64
  pub cashback_amount : ℕ  -- u64
  pub buyback_fee_basis_points : ℕ  -- u64
  pub buyback_fee_amount : ℕ  -- u64
  pub virtual_quote_reserves : ℤ  -- i128
  pub can_boost : Bool
  pub base_supply : ℕ  -- u64

pub record PumpSwapDepositEvent : Type 0 where
  pub timestamp : ℤ
  pub lp_token_amount_out : ℕ  -- u64
  pub max_base_amount_in : ℕ  -- u64
  pub max_quote_amount_in : ℕ  -- u64
  pub user_base_token_reserves : ℕ  -- u64
  pub user_quote_token_reserves : ℕ  -- u64
  pub pool_base_token_reserves : ℕ  -- u64
  pub pool_quote_token_reserves : ℕ  -- u64
  pub base_amount_in : ℕ  -- u64
  pub quote_amount_in : ℕ  -- u64
  pub lp_mint_supply : ℕ  -- u64
  pub pool : String
  pub user : String
  pub user_base_token_account : String
  pub user_quote_token_account : String
  pub user_pool_token_account : String

pub record PumpSwapWithdrawEvent : Type 0 where
  pub timestamp : ℤ
  pub lp_token_amount_in : ℕ  -- u64
  pub min_base_amount_out : ℕ  -- u64
  pub min_quote_amount_out : ℕ  -- u64
  pub user_base_token_reserves : ℕ  -- u64
  pub user_quote_token_reserves : ℕ  -- u64
  pub pool_base_token_reserves : ℕ  -- u64
  pub pool_quote_token_reserves : ℕ  -- u64
  pub base_amount_out : ℕ  -- u64
  pub quote_amount_out : ℕ  -- u64
  pub lp_mint_supply : ℕ  -- u64
  pub pool : String
  pub user : String
  pub user_base_token_account : String
  pub user_quote_token_account : String
  pub user_pool_token_account : String

pub data PumpEvent : Type 0 where
  create : PumpCreateEvent → PumpEvent
  trade : PumpTradeEvent → PumpEvent
  complete : PumpCompleteEvent → PumpEvent
  complete_pump_amm_migration : PumpMigrationEvent → PumpEvent
  pump_swap_create_pool : PumpSwapCreatePoolEvent → PumpEvent
  pump_swap_buy : PumpSwapBuyEvent → PumpEvent
  pump_swap_sell : PumpSwapSellEvent → PumpEvent
  pump_swap_deposit : PumpSwapDepositEvent → PumpEvent
  pump_swap_withdraw : PumpSwapWithdrawEvent → PumpEvent

unfoldable pub kind : PumpEvent → PumpEventKind
kind (PumpEvent.create event) = PumpEventKind.create
kind (PumpEvent.trade event) = PumpEventKind.trade
kind (PumpEvent.pump_swap_buy event) = PumpEventKind.trade
kind (PumpEvent.pump_swap_sell event) = PumpEventKind.trade
kind (PumpEvent.pump_swap_deposit event) = liquidity_deposit
kind (PumpEvent.pump_swap_withdraw event) = liquidity_withdraw
kind (PumpEvent.complete event) = PumpEventKind.complete
kind (PumpEvent.complete_pump_amm_migration event) = PumpEventKind.complete_pump_amm_migration
kind (PumpEvent.pump_swap_create_pool event) = create_pool

unfoldable pub timestamp_of : PumpEvent → ℤ
timestamp_of (PumpEvent.create event) = event.timestamp
timestamp_of (PumpEvent.trade event) = event.timestamp
timestamp_of (PumpEvent.complete event) = event.timestamp
timestamp_of (PumpEvent.complete_pump_amm_migration event) = event.timestamp
timestamp_of (PumpEvent.pump_swap_create_pool event) = event.timestamp
timestamp_of (PumpEvent.pump_swap_buy event) = event.timestamp
timestamp_of (PumpEvent.pump_swap_sell event) = event.timestamp
timestamp_of (PumpEvent.pump_swap_deposit event) = event.timestamp
timestamp_of (PumpEvent.pump_swap_withdraw event) = event.timestamp

pub record DecodedPumpEvent : Type 0 where
  pub program : PumpProgram
  pub coordinate : ChainCoordinate
  pub event : PumpEvent

unfoldable pub event_kind : DecodedPumpEvent → PumpEventKind
event_kind self = kind self.event

unfoldable pub source_event_time_unix_seconds : DecodedPumpEvent → ℤ
source_event_time_unix_seconds self = timestamp_of self.event
