-- ===== src/Pump/Decode.antt =====
-- crates/source-pump/src/decoder.rs: decoding one event, and the events of one instruction.
pub mod Strict
pub mod Attributed
pub mod Batches
pub mod Logs
use soldisco.Prelude.{
  ℕ, zero, suc, ◌+◌, String, Option, none, some, List, [], ◌∷◌, ◌++◌, Bool, true, false, not, ltb,
  ◌==◌, length, Result, ok, err, ◌>>=◌, ◌>>◌, reject_if, ok_or, if◌then◌else◌,
}
use soldisco.Prelude.Text.{is_empty_text, strip_text}
use soldisco.Domain.{ChainCoordinate}
use soldisco.Pump.{PumpProgram, supported_program, anchor_event_cpi_discriminator}
use soldisco.Pump.Model.{PumpEvent, DecodedPumpEvent}
use soldisco.Pump.Reader.{
  DecodeError, unsupported_program, empty_signature, missing_discriminator,
  missing_cpi_discriminator, invalid_program_data_log, invalid_base64, too_many_events, BorshReader,
  new_reader, finish, take_bytes,
}
use soldisco.Pump.Events.Dispatch.{decode_event}

abbrev pub program_data_prefix : String
program_data_prefix = "Program data: "

-- slice::strip_prefix, by the prefix
unfoldable pub strip_prefix : List ℕ → List ℕ → Option (List ℕ)
strip_prefix [] bytes = some bytes
strip_prefix (x ∷ prefix) [] = none
strip_prefix (x ∷ prefix) (y ∷ bytes) =
    let rest = strip_prefix prefix bytes in if x == y then rest else none

unfoldable pub is_anchor_event_cpi : List ℕ → Bool
is_anchor_event_cpi bytes = elim (strip_prefix anchor_event_cpi_discriminator bytes) [
  | none ↦ false
  | some rest ↦ true
]

abbrev unwrap_or {ℓ} : {A : Type ℓ} → Option A → A → A
unwrap_or none other = other
unwrap_or (some value) other = value

-- data.strip_prefix(&ANCHOR_EVENT_CPI_DISCRIMINATOR).unwrap_or(data)
abbrev pub event_bytes_of : List ℕ → List ℕ
event_bytes_of bytes = unwrap_or (strip_prefix anchor_event_cpi_discriminator bytes) bytes

abbrev pub drop_bytes : ℕ → List ℕ → List ℕ
drop_bytes zero xs = xs
drop_bytes (suc n) [] = []
drop_bytes (suc n) (x ∷ xs) = drop_bytes n xs

-- The event of a payload without the prefix of an event CPI: its eight bytes of discriminator, its fields,
-- and nothing behind them.
unfoldable pub decode_event_bytes : PumpProgram → List ℕ → Result DecodeError PumpEvent
unfolding decode_event finish
decode_event_bytes program event_bytes = do
  reject_if (ltb (length event_bytes) 8) missing_discriminator
  read ← decode_event program (take_bytes 8 event_bytes) (new_reader (drop_bytes 8 event_bytes))
  finish read.1
  ok read.0

unfoldable pub decode_anchor_event :
    String → ChainCoordinate → List ℕ → Result DecodeError DecodedPumpEvent
decode_anchor_event program_id coordinate bytes = do
  program ← ok_or (supported_program program_id) (unsupported_program program_id)
  reject_if (is_empty_text coordinate.signature) empty_signature
  event ← decode_event_bytes program (event_bytes_of bytes)
  ok (record { program = program; coordinate = coordinate; event = event })

unfoldable pub decode_cpi_event :
    String → ChainCoordinate → List ℕ → Result DecodeError DecodedPumpEvent
decode_cpi_event program_id coordinate bytes = do
  reject_if (not (is_anchor_event_cpi bytes)) missing_cpi_discriminator
  decode_anchor_event program_id coordinate bytes

-- u16::try_from(event_index)
unfoldable pub event_index_of : ℕ → Result DecodeError ℕ
event_index_of index = if ltb 65535 index then err (too_many_events 65535) else ok index

-- The coordinate of an event of one instruction.
abbrev pub coordinate_at : ℕ → String → ℕ → ℕ → ChainCoordinate
coordinate_at slot signature instruction_index event_index = record {
  slot = slot;
  transaction_index = none;
  signature = signature;
  instruction_index = instruction_index;
  event_index = event_index;
}

module _ (program_id : String) (slot : ℕ) (signature : String) (instruction_index : ℕ) where
  unfoldable pub decode_events_from : ℕ → List (List ℕ) → Result DecodeError (List DecodedPumpEvent)
  decode_events_from index [] = ok []
  decode_events_from index (payload ∷ payloads) = do
    event_index ← event_index_of index
    event ←
        decode_anchor_event program_id (coordinate_at slot signature instruction_index event_index)
          payload
    events ← decode_events_from (suc index) payloads
    ok (event ∷ events)

  unfoldable pub decode_instruction_events :
      List (List ℕ) → Result DecodeError (List DecodedPumpEvent)
  decode_instruction_events payloads = decode_events_from 0 payloads

-- The base64 decoder is a third-party crate's; its error is forgotten.
module _ (base64_decode : String → Option (List ℕ)) where
  unfoldable pub decode_program_data_bytes : String → Result DecodeError (List ℕ)
  decode_program_data_bytes log = do
    encoded ← ok_or (strip_text program_data_prefix log) invalid_program_data_log
    ok_or (base64_decode encoded) invalid_base64

  unfoldable pub decode_program_data_log :
      String → ChainCoordinate → String → Result DecodeError DecodedPumpEvent
  decode_program_data_log program_id coordinate log = do
    bytes ← decode_program_data_bytes log
    decode_anchor_event program_id coordinate bytes

  module _ (program_id : String) (slot : ℕ) (signature : String) (instruction_index : ℕ) where
    -- The loop over the logs, with the events so far. A log starts with the prefix if it can be stripped.
    unfoldable pub decode_logs_after :
        List DecodedPumpEvent → List String → Result DecodeError (List DecodedPumpEvent)
    decode_logs_after events [] = ok events
    decode_logs_after events (log ∷ logs) = elim (strip_text program_data_prefix log) [
      | none ↦ decode_logs_after events logs
      | some encoded ↦ (do
        event_index ← event_index_of (length events)
        event ←
            decode_program_data_log program_id
              (coordinate_at slot signature instruction_index event_index) log
        decode_logs_after (events ++ (event ∷ [])) logs)
    ]

    unfoldable pub decode_instruction_program_data_logs :
        List String → Result DecodeError (List DecodedPumpEvent)
    decode_instruction_program_data_logs logs = decode_logs_after [] logs
