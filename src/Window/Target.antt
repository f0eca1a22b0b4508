-- ===== src/Window/Target.antt =====
-- crates/discovery-engine/src/lib.rs: what a window observes, and why its evidence is incomplete.
use Prim.Native.Nat.{Ordering}
use Prim.Native.String.{compare as compare_text}
use text.Mathlib.Text.{◌==◌ as str_eq}
use soldisco.Prelude.{
  ℕ, String, Option, none, some, Bool, true, false, ◌≡◌, ◌↔◌, arith, eq_iff, ◌==◌, if◌then◌else◌,
}
use soldisco.Prelude.Int.{ℤ}
use soldisco.Domain.{
  MarketIdentity, Venue, pump_bonding_curve, raydium_cpmm, raydium_clmm, raydium_amm_v4,
  SourceProgram,
}

pub data ObservationTarget : Type 0 where
  pump_mint pump_swap_pool : String → ObservationTarget

abbrev target_of_venue : Venue → MarketIdentity → Option ObservationTarget
target_of_venue pump_bonding_curve market = some (pump_mint market.mint)
target_of_venue Venue.pump_swap market = some (pump_swap_pool market.market_address)
target_of_venue raydium_cpmm market = none
target_of_venue raydium_clmm market = none
target_of_venue raydium_amm_v4 market = none

-- ObservationTarget::for_market
unfoldable pub for_market : MarketIdentity → Option ObservationTarget
for_market market = target_of_venue market.venue market

-- The derived equality and order: the constructors in their order, then the texts.
unfoldable pub target_eq : ObservationTarget → ObservationTarget → Bool
target_eq (pump_mint a) (pump_mint b) = str_eq a b
target_eq (pump_swap_pool a) (pump_swap_pool b) = str_eq a b
target_eq (pump_mint a) (pump_swap_pool b) = false
target_eq (pump_swap_pool a) (pump_mint b) = false

unfoldable pub compare_target : ObservationTarget → ObservationTarget → Ordering
compare_target (pump_mint a) (pump_mint b) = compare_text a b
compare_target (pump_swap_pool a) (pump_swap_pool b) = compare_text a b
compare_target (pump_mint a) (pump_swap_pool b) = Ordering.lt
compare_target (pump_swap_pool a) (pump_mint b) = Ordering.gt

abbrev pub target_source_program : ObservationTarget → SourceProgram
target_source_program (pump_mint a) = SourceProgram.pump
target_source_program (pump_swap_pool a) = SourceProgram.pump_swap

pub record ObservationWindow : Type 0 where
  pub target : ObservationTarget
  pub mint : String
  pub opened_at_unix_ms : ℤ
  pub closes_at_unix_ms : ℤ

pub data WindowIncompleteReason : Type 0 where
  capacity_evicted queue_overflow source_disconnected stream_stopped : WindowIncompleteReason
  pipeline_restarted decode_gap processing_failed : WindowIncompleteReason
  cpi_instruction_data_unavailable : WindowIncompleteReason

-- The code WINDOW_COMPLETE.
abbrev pub window_complete : ℕ
window_complete = 0

-- WindowIncompleteReason::code
unfoldable pub code : WindowIncompleteReason → ℕ
code capacity_evicted = 1
code queue_overflow = 2
code source_disconnected = 3
code stream_stopped = 4
code pipeline_restarted = 5
code decode_gap = 6
code processing_failed = 7
code cpi_instruction_data_unavailable = 8

-- WindowIncompleteReason::from_code
unfoldable pub from_code : ℕ → Option WindowIncompleteReason
from_code code =
    if code == 1
    then some capacity_evicted
    else if code == 2
    then some queue_overflow
    else if code == 3
    then some source_disconnected
    else if code == 4
    then some stream_stopped
    else if code == 5
    then some pipeline_restarted
    else if code == 6
    then some decode_gap
    else if code == 7
    then some processing_failed
    else if code == 8
    then some cpi_instruction_data_unavailable
    else none

pub target_eq_iff : (a b : ObservationTarget) → (target_eq a b ≡ true) ↔ (a ≡ b)
unfolding target_eq
target_eq_iff (pump_mint a) (pump_mint b) = ground (arith, eq_iff a b)
target_eq_iff (pump_swap_pool a) (pump_swap_pool b) = ground (arith, eq_iff a b)
target_eq_iff (pump_mint a) (pump_swap_pool b) = ground arith
target_eq_iff (pump_swap_pool a) (pump_mint b) = ground arith

-- A stored code reads back as a reason exactly when it is the code of that reason, and the code of a
-- complete window reads back as none.
from_code-code :
    (n : ℕ) (reason : WindowIncompleteReason) → (from_code n ≡ some reason) ↔ (n ≡ code reason)
unfolding from_code code
from_code-code n reason = ground arith
