-- ===== src/Pump.antt =====
-- crates/source-pump/src/lib.rs and idl.rs: the two Pump programs and the discriminators of their events.
pub mod Model
pub mod Base58
pub mod Reader
pub mod Events
pub mod Decode
use text.Mathlib.Text.{◌==◌ as str_eq}
use soldisco.Prelude.{
  ℕ, String, Option, none, some, List, [], ◌∷◌, Bool, true, false, ◌&&◌, ◌==◌, any, if◌then◌else◌,
}
use soldisco.Domain.{SourceProgram}

abbrev pub pump_program_id : String
pump_program_id = "6EF8rrecthR5Dkzon8Nwu78hRvfCKubJ14M5uBEwF6P"

abbrev pub pump_swap_program_id : String
pump_swap_program_id = "pAMMBay6oceH9fJKBRHGP5D4bD4sWpmSwMn52FMfXEA"

pub data PumpProgram : Type 0 where
  pump pump_swap : PumpProgram

abbrev pub program_id : PumpProgram → String
program_id pump = pump_program_id
program_id pump_swap = pump_swap_program_id

abbrev pub source_program : PumpProgram → SourceProgram
source_program pump = SourceProgram.pump
source_program pump_swap = SourceProgram.pump_swap

unfoldable pub supported_program : String → Option PumpProgram
supported_program id =
    if str_eq id pump_program_id
    then some pump
    else if str_eq id pump_swap_program_id
    then some pump_swap
    else none

-- The equality of byte arrays.
unfoldable pub bytes_eq : List ℕ → List ℕ → Bool
bytes_eq [] [] = true
bytes_eq (x ∷ xs) (y ∷ ys) = x == y && bytes_eq xs ys
bytes_eq _ _ = false

abbrev pub anchor_event_cpi_discriminator : List ℕ
anchor_event_cpi_discriminator = 228 ∷ 69 ∷ 165 ∷ 46 ∷ 81 ∷ 203 ∷ 154 ∷ 29 ∷ []

abbrev pub complete_event_discriminator : List ℕ
complete_event_discriminator = 95 ∷ 114 ∷ 97 ∷ 156 ∷ 212 ∷ 46 ∷ 152 ∷ 8 ∷ []

abbrev pub complete_pump_amm_migration_event_discriminator : List ℕ
complete_pump_amm_migration_event_discriminator = 189 ∷ 233 ∷ 93 ∷ 185 ∷ 92 ∷ 148 ∷ 234 ∷ 148 ∷ []

abbrev pub create_event_discriminator : List ℕ
create_event_discriminator = 27 ∷ 114 ∷ 169 ∷ 77 ∷ 222 ∷ 235 ∷ 99 ∷ 118 ∷ []

abbrev pub trade_event_discriminator : List ℕ
trade_event_discriminator = 189 ∷ 219 ∷ 127 ∷ 211 ∷ 78 ∷ 230 ∷ 97 ∷ 238 ∷ []

abbrev pub create_pool_event_discriminator : List ℕ
create_pool_event_discriminator = 177 ∷ 49 ∷ 12 ∷ 210 ∷ 160 ∷ 118 ∷ 167 ∷ 116 ∷ []

abbrev pub pump_swap_buy_event_discriminator : List ℕ
pump_swap_buy_event_discriminator = 103 ∷ 244 ∷ 82 ∷ 31 ∷ 44 ∷ 245 ∷ 119 ∷ 119 ∷ []

abbrev pub pump_swap_sell_event_discriminator : List ℕ
pump_swap_sell_event_discriminator = 62 ∷ 47 ∷ 55 ∷ 10 ∷ 165 ∷ 3 ∷ 220 ∷ 42 ∷ []

abbrev pub pump_swap_deposit_event_discriminator : List ℕ
pump_swap_deposit_event_discriminator = 120 ∷ 248 ∷ 61 ∷ 83 ∷ 31 ∷ 142 ∷ 107 ∷ 144 ∷ []

abbrev pub pump_swap_withdraw_event_discriminator : List ℕ
pump_swap_withdraw_event_discriminator = 22 ∷ 9 ∷ 133 ∷ 26 ∷ 160 ∷ 44 ∷ 71 ∷ 192 ∷ []

abbrev pump_event_discriminators : List (List ℕ)
pump_event_discriminators =
    (64 ∷ 69 ∷ 192 ∷ 104 ∷ 29 ∷ 30 ∷ 25 ∷ 107 ∷ [])
    ∷ (245 ∷ 59 ∷ 70 ∷ 34 ∷ 75 ∷ 185 ∷ 109 ∷ 92 ∷ [])
    ∷ (147 ∷ 250 ∷ 108 ∷ 120 ∷ 247 ∷ 29 ∷ 67 ∷ 222 ∷ [])
    ∷ (226 ∷ 214 ∷ 246 ∷ 33 ∷ 7 ∷ 242 ∷ 147 ∷ 229 ∷ [])
    ∷ (79 ∷ 172 ∷ 246 ∷ 49 ∷ 205 ∷ 91 ∷ 206 ∷ 232 ∷ [])
    ∷ (146 ∷ 159 ∷ 189 ∷ 172 ∷ 146 ∷ 88 ∷ 56 ∷ 244 ∷ [])
    ∷ (122 ∷ 2 ∷ 127 ∷ 1 ∷ 14 ∷ 191 ∷ 12 ∷ 175 ∷ [])
    ∷ complete_event_discriminator
    ∷ complete_pump_amm_migration_event_discriminator
    ∷ create_event_discriminator
    ∷ (165 ∷ 55 ∷ 129 ∷ 112 ∷ 4 ∷ 179 ∷ 202 ∷ 40 ∷ [])
    ∷ (97 ∷ 97 ∷ 215 ∷ 144 ∷ 93 ∷ 146 ∷ 22 ∷ 124 ∷ [])
    ∷ (134 ∷ 36 ∷ 13 ∷ 72 ∷ 232 ∷ 101 ∷ 130 ∷ 216 ∷ [])
    ∷ (155 ∷ 167 ∷ 104 ∷ 220 ∷ 213 ∷ 108 ∷ 243 ∷ 3 ∷ [])
    ∷ (168 ∷ 216 ∷ 132 ∷ 239 ∷ 235 ∷ 182 ∷ 49 ∷ 52 ∷ [])
    ∷ (43 ∷ 188 ∷ 250 ∷ 18 ∷ 221 ∷ 75 ∷ 187 ∷ 95 ∷ [])
    ∷ (237 ∷ 52 ∷ 123 ∷ 37 ∷ 245 ∷ 251 ∷ 72 ∷ 210 ∷ [])
    ∷ (142 ∷ 203 ∷ 6 ∷ 32 ∷ 127 ∷ 105 ∷ 191 ∷ 162 ∷ [])
    ∷ (223 ∷ 195 ∷ 159 ∷ 246 ∷ 62 ∷ 48 ∷ 143 ∷ 131 ∷ [])
    ∷ (197 ∷ 122 ∷ 167 ∷ 124 ∷ 116 ∷ 81 ∷ 91 ∷ 255 ∷ [])
    ∷ trade_event_discriminator
    ∷ (182 ∷ 195 ∷ 137 ∷ 42 ∷ 35 ∷ 206 ∷ 207 ∷ 247 ∷ [])
    ∷ (117 ∷ 123 ∷ 228 ∷ 182 ∷ 161 ∷ 168 ∷ 220 ∷ 214 ∷ [])
    ∷ []

abbrev pump_swap_event_discriminators : List (List ℕ)
pump_swap_event_discriminators =
    (45 ∷ 220 ∷ 93 ∷ 24 ∷ 25 ∷ 97 ∷ 172 ∷ 104 ∷ [])
    ∷ (147 ∷ 250 ∷ 108 ∷ 120 ∷ 247 ∷ 29 ∷ 67 ∷ 222 ∷ [])
    ∷ (63 ∷ 69 ∷ 28 ∷ 22 ∷ 48 ∷ 92 ∷ 194 ∷ 185 ∷ [])
    ∷ pump_swap_buy_event_discriminator
    ∷ (226 ∷ 214 ∷ 246 ∷ 33 ∷ 7 ∷ 242 ∷ 147 ∷ 229 ∷ [])
    ∷ (79 ∷ 172 ∷ 246 ∷ 49 ∷ 205 ∷ 91 ∷ 206 ∷ 232 ∷ [])
    ∷ (146 ∷ 159 ∷ 189 ∷ 172 ∷ 146 ∷ 88 ∷ 56 ∷ 244 ∷ [])
    ∷ (232 ∷ 245 ∷ 194 ∷ 238 ∷ 234 ∷ 218 ∷ 58 ∷ 89 ∷ [])
    ∷ (107 ∷ 52 ∷ 89 ∷ 129 ∷ 55 ∷ 226 ∷ 81 ∷ 22 ∷ [])
    ∷ create_pool_event_discriminator
    ∷ (120 ∷ 248 ∷ 61 ∷ 83 ∷ 31 ∷ 142 ∷ 107 ∷ 144 ∷ [])
    ∷ (107 ∷ 253 ∷ 193 ∷ 76 ∷ 228 ∷ 202 ∷ 27 ∷ 104 ∷ [])
    ∷ (97 ∷ 97 ∷ 215 ∷ 144 ∷ 93 ∷ 146 ∷ 22 ∷ 124 ∷ [])
    ∷ (174 ∷ 124 ∷ 74 ∷ 249 ∷ 4 ∷ 81 ∷ 246 ∷ 17 ∷ [])
    ∷ (134 ∷ 36 ∷ 13 ∷ 72 ∷ 232 ∷ 101 ∷ 130 ∷ 216 ∷ [])
    ∷ (170 ∷ 221 ∷ 82 ∷ 199 ∷ 147 ∷ 165 ∷ 247 ∷ 46 ∷ [])
    ∷ (43 ∷ 188 ∷ 250 ∷ 18 ∷ 221 ∷ 75 ∷ 187 ∷ 95 ∷ [])
    ∷ pump_swap_sell_event_discriminator
    ∷ (242 ∷ 231 ∷ 235 ∷ 102 ∷ 65 ∷ 99 ∷ 189 ∷ 211 ∷ [])
    ∷ (89 ∷ 128 ∷ 240 ∷ 141 ∷ 91 ∷ 202 ∷ 71 ∷ 105 ∷ [])
    ∷ (150 ∷ 107 ∷ 199 ∷ 123 ∷ 124 ∷ 207 ∷ 102 ∷ 228 ∷ [])
    ∷ (197 ∷ 122 ∷ 167 ∷ 124 ∷ 116 ∷ 81 ∷ 91 ∷ 255 ∷ [])
    ∷ (225 ∷ 152 ∷ 171 ∷ 87 ∷ 246 ∷ 63 ∷ 66 ∷ 234 ∷ [])
    ∷ (90 ∷ 23 ∷ 65 ∷ 35 ∷ 62 ∷ 244 ∷ 188 ∷ 208 ∷ [])
    ∷ (22 ∷ 9 ∷ 133 ∷ 26 ∷ 160 ∷ 44 ∷ 71 ∷ 192 ∷ [])
    ∷ []

unfoldable pub is_pinned_event_discriminator : PumpProgram → List ℕ → Bool
is_pinned_event_discriminator pump discriminator =
    any (bytes_eq discriminator) pump_event_discriminators
is_pinned_event_discriminator pump_swap discriminator =
    any (bytes_eq discriminator) pump_swap_event_discriminators
