-- ===== src/Tests/Events.antt =====
-- Events of crates/source-pump/src/decoder.rs at concrete bytes.
use soldisco.Prelude.{
  ℕ, zero, suc, String, List, [], ◌∷◌, ◌++◌, some, none, false, true, ok, err, ◌≡◌, ◌↔◌, refl,
  arith, Option,
}
use soldisco.Prelude.Int.{pos, negsuc}
use soldisco.Domain.{
  ChainCoordinate, MarketIdentity, SourceProgram, solana_mainnet, confirmed, market_completed,
}
use soldisco.Pump.{
  pump, source_program, pump_program_id, supported_program, complete_event_discriminator, bytes_eq,
}
use soldisco.Pump.Model.{
  PumpEvent, DecodedPumpEvent, PumpCompleteEvent, source_event_time_unix_seconds, timestamp_of,
}
use soldisco.Pump.Base58.{
  encode_base58, base58_digits, pop_zeroes, digits_from, push_byte, push_carry,
}
use soldisco.Prelude.Utf8.{from_utf8}
use soldisco.Pump.Base58.Text.{encode_base58_injective}
use soldisco.Pump.Reader.{trailing_bytes, i64, pubkey, take, finish, pure, ◌>>=◌}
use soldisco.Pump.Reader.Integers.{
  to_le_bytes, as_unsigned, reader_at, after_eight, i64-to_le_bytes,
}
use soldisco.Pump.Events.Curve.{decode_pump_complete}
use soldisco.Pump.Events.Dispatch.{decode_event, wrapped}
use soldisco.Pump.Decode.{
  strip_prefix, is_anchor_event_cpi, decode_event_bytes, decode_anchor_event, coordinate_at,
  decode_instruction_events, decode_program_data_bytes, decode_instruction_program_data_logs,
}
use soldisco.Normalization.Event.{
  Host, NormalizedPumpEvent, normalize_pump_event, normalize_event, event_time, evidence_hash,
  bonding_curve_market,
}
use soldisco.Normalization.Event.Venues.{venue_of, normalize_pump_event-venue}
use soldisco.Pump.Decode.Strict.{decode_anchor_event_strict}
use soldisco.Pump.Decode.Attributed.{Attribution, decode_anchor_event-Attribution}
use soldisco.Pump.Decode.Batches.{InOrder, decode_instruction_events-InOrder}
use soldisco.Pump.Decode.Logs.{payloads_of, decode_instruction_program_data_logs-payloads_of}

abbrev zeroes : ℕ → List ℕ
zeroes zero = []
zeroes (suc n) = 0 ∷ zeroes n

euro : from_utf8 (0x61 ∷ 0xE2 ∷ 0x82 ∷ 0xAC ∷ 0x62 ∷ []) ≡ some "a€b"
unfolding from_utf8
euro = refl

surrogate : from_utf8 (0xED ∷ 0xA0 ∷ 0x80 ∷ []) ≡ none
unfolding from_utf8
surrogate = refl

-- The key of the test `base58_encodes_zero_pubkey_and_known_system_program_bytes`.
system_key : encode_base58 (zeroes 31 ++ (1 ∷ [])) ≡ "11111111111111111111111111111112"
unfolding encode_base58 base58_digits pop_zeroes digits_from push_byte push_carry
system_key = refl

abbrev key : ℕ → List ℕ
key n = zeroes 31 ++ (n ∷ [])

abbrev completion : List ℕ
completion =
    complete_event_discriminator
    ++ (key 1 ++ (key 2 ++ (key 3 ++ (to_le_bytes 8 1700000000 ++ key 4))))

abbrev place : ChainCoordinate
place = coordinate_at 5 "sig" 2 0

abbrev completed_event : PumpCompleteEvent
completed_event = record {
  user = encode_base58 (key 1);
  mint = encode_base58 (key 2);
  bonding_curve = encode_base58 (key 3);
  timestamp = pos 1700000000;
  quote_mint = encode_base58 (key 4);
}

abbrev completed : DecodedPumpEvent
completed = record {
  program = pump;
  coordinate = place;
  event = PumpEvent.complete completed_event;
}

decodes : decode_anchor_event pump_program_id place completion ≡ ok completed
unfolding decode_anchor_event decode_event_bytes decode_event wrapped decode_pump_complete
    supported_program strip_prefix bytes_eq take pubkey i64 pure ◌>>=◌ finish
decodes = refl

decode_anchor_event_strict_example :
    decode_anchor_event pump_program_id place (completion ++ (0 ∷ [])) ≡ err (trailing_bytes 1)
decode_anchor_event_strict_example =
    decode_anchor_event_strict pump_program_id place completion completed 0 [] decodes

decode_anchor_event-Attribution_example : Attribution pump_program_id place completion completed
decode_anchor_event-Attribution_example =
    decode_anchor_event-Attribution pump_program_id place completion completed decodes

bare : is_anchor_event_cpi completion ≡ false
unfolding is_anchor_event_cpi strip_prefix
bare = refl

decode_instruction_events-InOrder_example :
    (decode_instruction_events pump_program_id 5 "sig" 2 (completion ∷ []) ≡ ok (completed ∷ []))
    ↔ InOrder pump_program_id 5 "sig" 2 0 (completion ∷ []) (completed ∷ [])
decode_instruction_events-InOrder_example =
    decode_instruction_events-InOrder pump_program_id 5 "sig" 2 (completion ∷ []) (completed ∷ [])

-- A stand-in for the base64 crate that knows one text.
abbrev decode_text : String → Option (List ℕ)
decode_text String.[] = none
decode_text (String.◌∷◌ c rest) = some completion

abbrev logs : List String
logs = "Program log: x" ∷ "Program data: A" ∷ []

carried : payloads_of decode_text logs ≡ ok (completion ∷ [])
unfolding decode_program_data_bytes
carried = refl

decode_instruction_program_data_logs-payloads_of_example :
    decode_instruction_program_data_logs decode_text pump_program_id 5 "sig" 2 logs
    ≡ decode_instruction_events pump_program_id 5 "sig" 2 (completion ∷ [])
decode_instruction_program_data_logs-payloads_of_example =
    decode_instruction_program_data_logs-payloads_of decode_text pump_program_id 5 "sig" 2 logs
      (completion ∷ []) carried

abbrev short_key : List ℕ
short_key = 0 ∷ 7 ∷ []

encode_base58_injective_example : short_key ≡ short_key
encode_base58_injective_example =
    encode_base58_injective short_key short_key refl (omega arith, (omega arith, tt))
      (omega arith, (omega arith, tt)) refl

i64-to_le_bytes_example :
    i64 "timestamp" (reader_at (9 ∷ []) (to_le_bytes 8 (as_unsigned 64 (negsuc 4)) ++ (1 ∷ [])))
    ≡ ok (negsuc 4, after_eight (9 ∷ []) (as_unsigned 64 (negsuc 4)) (1 ∷ []))
i64-to_le_bytes_example =
    i64-to_le_bytes "timestamp" (9 ∷ []) (1 ∷ []) (negsuc 4) (omega arith) (omega arith)

-- Stand-ins for the crates.
abbrev test_host : Host
test_host = record {
  represents = λ event. true;
  sha256 = λ bytes. bytes;
  base64_encode = λ bytes. "AQ==";
  package_version = "0.1.0";
}

abbrev curve_market : MarketIdentity
curve_market =
    bonding_curve_market solana_mainnet completed_event.mint completed_event.bonding_curve
      completed_event.quote_mint

abbrev completion_observed : NormalizedPumpEvent
completion_observed = record {
  observation = record {
    key = record { network = solana_mainnet; program = SourceProgram.pump; coordinate = place };
    commitment = confirmed;
    schema_version = 1;
    decoder_version = "pump-idl-9c82f61cb711b044a17f770ab8ce9f9bdf78f333-soldisco-0.1.0";
    event_kind = "COMPLETE";
    market = curve_market;
    source_event_time_unix_ms = some (pos 1700000000000);
    received_time_unix_ms = pos 1700000000500;
    raw_evidence_hash = "01";
    source_evidence_base64 = "AQ==";
    payload = market_completed completed_event.user;
  };
  discovered_market = none;
}

observes :
    normalize_pump_event test_host completed solana_mainnet confirmed
      (pos 1700000000500)
      (1 ∷ [])
      []
    ≡ ok completion_observed
unfolding normalize_pump_event normalize_event event_time evidence_hash
    source_event_time_unix_seconds timestamp_of
observes = refl

normalize_pump_event-venue_example :
    (curve_market.venue ≡ venue_of pump)
    × (completion_observed.observation.key.program ≡ source_program pump)
    × (completion_observed.observation.key.coordinate ≡ place)
normalize_pump_event-venue_example =
    normalize_pump_event-venue test_host pump_program_id place completion completed solana_mainnet
      confirmed (pos 1700000000500) (1 ∷ []) [] completion_observed decodes tt observes
