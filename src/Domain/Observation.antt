-- ===== src/Domain/Observation.antt =====
-- crates/domain/src/observation.rs: coordinates, keys, payloads and normalized observations.
use soldisco.Prelude.{
  ℕ, String, Option, none, some, Bool, true, false, ◌&&◌, ◌==◌, ◌≡◌, ◌↔◌, arith, eq_iff,
}
use text.Mathlib.Text.{◌==◌ as str_eq}
use soldisco.Prelude.Int.{ℤ}
use soldisco.Domain.Market.{Network, MarketIdentity, network_eq}

pub data Commitment : Type 0 where
  processed confirmed finalized : Commitment

pub data SourceProgram : Type 0 where
  pump pump_swap raydium_cpmm raydium_clmm raydium_amm_v4 : SourceProgram

pub data TradeSide : Type 0 where
  buy sell : TradeSide

pub record ChainCoordinate : Type 0 where
  pub slot : ℕ  -- u64
  pub transaction_index : Option ℕ  -- Option<u64>
  pub signature : String
  pub instruction_index : ℕ  -- u16
  pub event_index : ℕ  -- u16

pub record ObservationKey : Type 0 where
  pub network : Network
  pub program : SourceProgram
  pub coordinate : ChainCoordinate
  pub open coordinate use *

pub data ObservationPayload : Type 0 where
  -- name, symbol, uri, creator, user
  token_created : String → String → String → String → String → ObservationPayload
  -- creator, base_amount_units, quote_amount_units
  market_created : String → ℕ → ℕ → ObservationPayload
  -- side, wallet, base and quote amount, base and quote reserve
  trade : TradeSide → String → ℕ → ℕ → Option ℕ → Option ℕ → ObservationPayload
  -- provider, base and quote amount, base and quote reserve, LP amount and supply
  liquidity_deposited : String → ℕ → ℕ → ℕ → ℕ → ℕ → ℕ → ObservationPayload
  liquidity_withdrawn : String → ℕ → ℕ → ℕ → ℕ → ℕ → ℕ → ObservationPayload
  -- user
  market_completed : String → ObservationPayload
  -- user, destination_market, base_amount_units, legacy_sol_amount_units
  market_migrated : String → String → ℕ → ℕ → ObservationPayload

pub record NormalizedObservation : Type 0 where
  pub key : ObservationKey
  pub commitment : Commitment
  pub schema_version : ℕ  -- u16
  pub decoder_version : String
  pub event_kind : String
  pub market : MarketIdentity
  pub source_event_time_unix_ms : Option ℤ
  pub received_time_unix_ms : ℤ
  pub raw_evidence_hash : String
  pub source_evidence_base64 : String
  pub payload : ObservationPayload

-- The rank of a program in the order of observations, `source_program_rank` of
-- crates/discovery-engine/src/snapshot.rs.
abbrev pub source_program_rank : SourceProgram → ℕ
source_program_rank pump = 0
source_program_rank pump_swap = 1
source_program_rank raydium_cpmm = 2
source_program_rank raydium_clmm = 3
source_program_rank raydium_amm_v4 = 4

abbrev option_eq : Option ℕ → Option ℕ → Bool
option_eq none none = true
option_eq (some a) (some b) = a == b
option_eq _ _ = false

-- The derived equality of keys.
unfoldable pub key_eq : ObservationKey → ObservationKey → Bool
key_eq a b =
    network_eq a.network b.network
    && source_program_rank a.program == source_program_rank b.program
    && a.slot == b.slot
    && option_eq a.transaction_index b.transaction_index
    && str_eq a.signature b.signature
    && a.instruction_index == b.instruction_index
    && a.event_index == b.event_index

network_eq_iff : (a b : Network) → (network_eq a b ≡ true) ↔ (a ≡ b)
network_eq_iff a b = ground arith

rank_injective :
    (a b : SourceProgram) → ((source_program_rank a == source_program_rank b) ≡ true) ↔ (a ≡ b)
rank_injective a b = ground arith

option_eq_iff : (a b : Option ℕ) → (option_eq a b ≡ true) ↔ (a ≡ b)
option_eq_iff a b = ground arith

pub key_eq_iff : (a b : ObservationKey) → (key_eq a b ≡ true) ↔ (a ≡ b)
unfolding key_eq
key_eq_iff a b = ground (
  arith,
  network_eq_iff a.network b.network,
  rank_injective a.program b.program,
  option_eq_iff a.transaction_index b.transaction_index,
  eq_iff a.signature b.signature,
)
