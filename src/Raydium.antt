-- ===== src/Raydium.antt =====
-- crates/source-raydium/src/lib.rs: the Raydium programs and the enrichment by their pools.
use text.Mathlib.Text.{◌==◌}
use soldisco.Prelude.{
  ℕ, String, Option, none, some, List, Bool, false, if◌then◌else◌, ◌≡◌, ◌↔◌, arith, eq_iff, refl,
}
use soldisco.Domain.{MarketIdentity, Venue, SourceProgram}

abbrev pub raydium_amm_v4_program_id : String
raydium_amm_v4_program_id = "675kPX9MHTjS2zt1qfr1NYHuzeLXfQM9H24wFSUt1Mp8"

abbrev pub raydium_cpmm_program_id : String
raydium_cpmm_program_id = "CPMMoo8L3F4NbTegBCKVNunggL7H1ZpdTHKxQB5qKP1C"

abbrev pub raydium_clmm_program_id : String
raydium_clmm_program_id = "CAMMCzo5YL8w4VFF8KVHrK22GGUsp5VTaW7grrKgrWqK"

pub data RaydiumProgram : Type 0 where
  cpmm clmm amm_v4 : RaydiumProgram

abbrev pub program_id : RaydiumProgram → String
program_id cpmm = raydium_cpmm_program_id
program_id clmm = raydium_clmm_program_id
program_id amm_v4 = raydium_amm_v4_program_id

abbrev pub venue : RaydiumProgram → Venue
venue cpmm = Venue.raydium_cpmm
venue clmm = Venue.raydium_clmm
venue amm_v4 = Venue.raydium_amm_v4

abbrev pub source_program : RaydiumProgram → SourceProgram
source_program cpmm = SourceProgram.raydium_cpmm
source_program clmm = SourceProgram.raydium_clmm
source_program amm_v4 = SourceProgram.raydium_amm_v4

pub record RaydiumPoolEvidence : Type 0 where
  pub program : RaydiumProgram
  pub market : MarketIdentity
  pub observed_slot : ℕ  -- u64
  pub liquidity_quote_units : Option ℕ  -- u128
  pub recent_volume_quote_units : Option ℕ  -- u128

pub data RaydiumEnrichment : Type 0 where
  not_checked no_supported_pool : RaydiumEnrichment
  pools : List RaydiumPoolEvidence → RaydiumEnrichment
  unavailable : String → RaydiumEnrichment

abbrev pub is_rejection : RaydiumEnrichment → Bool
is_rejection self = false

unfoldable pub supported_program : String → Option RaydiumProgram
supported_program id =
    if id == raydium_cpmm_program_id
    then some cpmm
    else if id == raydium_clmm_program_id
    then some clmm
    else if id == raydium_amm_v4_program_id
    then some amm_v4
    else none

supported_id :
    (id : String) (program : RaydiumProgram)
    → supported_program id ≡ some program
    → id ≡ program_id program
unfolding supported_program
supported_id id program h = ground (
  arith,
  eq_iff id raydium_cpmm_program_id,
  eq_iff id raydium_clmm_program_id,
  eq_iff id raydium_amm_v4_program_id,
)

own_id : (program : RaydiumProgram) → supported_program (program_id program) ≡ some program
unfolding supported_program
own_id cpmm = refl
own_id clmm = refl
own_id amm_v4 = refl

-- An identifier is supported as a program exactly when it is that program's.
pub supported_program-program_id :
    (id : String) (program : RaydiumProgram)
    → (supported_program id ≡ some program) ↔ (id ≡ program_id program)
supported_program-program_id id program = (supported_id id program, λ e. rw e (own_id program))
