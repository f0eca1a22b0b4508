-- ===== src/Pump/Decode/Batches.antt =====
-- The events of one instruction, in the order of their payloads (crates/source-pump/src/decoder.rs).
use soldisco.Prelude.{
  ℕ, suc, ◌≤◌, String, List, [], ◌∷◌, Result, ok, ◌>>=◌, >>=-eq-ok, ◌≡◌, ◌↔◌, refl, subst, arith,
}
use soldisco.Pump.Model.{DecodedPumpEvent}
use soldisco.Pump.Reader.{DecodeError}
use soldisco.Pump.Decode.{
  decode_anchor_event, decode_events_from, decode_instruction_events, event_index_of, coordinate_at,
}

module _ (program_id : String) (slot : ℕ) (signature : String) (instruction_index : ℕ) where
  -- Each event is decoded from its payload, and its index is its place in the instruction.
  abbrev pub InOrder : ℕ → List (List ℕ) → List DecodedPumpEvent → Type 0
  InOrder index [] [] = Unit
  InOrder index (payload ∷ payloads) (event ∷ events) =
      (index ≤ 65535)
      × (decode_anchor_event program_id (coordinate_at slot signature instruction_index index)
            payload
          ≡ ok event)
      × InOrder (suc index) payloads events
  InOrder index _ _ = ⊥

  event_index_of-ok : (index i : ℕ) → event_index_of index ≡ ok i → (index ≤ 65535) × (i ≡ index)
  unfolding event_index_of
  event_index_of-ok index i h = (ground arith, ground arith)

  index_in_range : (index : ℕ) → index ≤ 65535 → event_index_of index ≡ ok index
  unfolding event_index_of
  index_in_range index h = ground arith

  head_then :
      (index : ℕ) (payload : List ℕ) (payloads : List (List ℕ)) (event : DecodedPumpEvent)
      (later events : List DecodedPumpEvent)
      → index ≤ 65535
      → decode_anchor_event program_id
          (coordinate_at slot signature instruction_index index)
          payload
        ≡ ok event
      → InOrder (suc index) payloads later
      → Path (Result DecodeError (List DecodedPumpEvent)) (ok (event ∷ later)) (ok events)
      → InOrder index (payload ∷ payloads) events
  head_then index payload payloads event later events small decoded rest h =
      let same : event ∷ later ≡ events = cc in
      subst (InOrder index (payload ∷ payloads)) same (small, decoded, rest)

  ordered :
      (index : ℕ) (payloads : List (List ℕ)) (events : List DecodedPumpEvent)
      → decode_events_from program_id slot signature instruction_index index payloads ≡ ok events
      → InOrder index payloads events
  unfolding decode_events_from
  ordered index [] [] h = tt
  ordered index [] (event ∷ events) h = cc
  ordered index (payload ∷ payloads) events h =
      let decoded_at : ℕ → Result DecodeError DecodedPumpEvent = λ i.
        decode_anchor_event program_id (coordinate_at slot signature instruction_index i) payload in
      let after =
        decode_events_from program_id slot signature instruction_index (suc index) payloads in
      let (i, in_range, h1) =
        >>=-eq-ok (event_index_of index)
          (λ i. decoded_at i >>= (λ event. after >>= (λ later. ok (event ∷ later)))) h in
      let (event, decoded, h2) =
        >>=-eq-ok (decoded_at i) (λ event. after >>= (λ later. ok (event ∷ later))) h1 in
      let (later, rest, built) = >>=-eq-ok after (λ later. ok (event ∷ later)) h2 in
      let (small, same) = event_index_of-ok index i in_range in
      head_then index payload payloads event later events small
        (subst (λ j. decoded_at j ≡ ok event) same decoded)
        (ordered (suc index) payloads later rest) built

  unordered :
      (index : ℕ) (payloads : List (List ℕ)) (events : List DecodedPumpEvent)
      → InOrder index payloads events
      → decode_events_from program_id slot signature instruction_index index payloads ≡ ok events
  unfolding decode_events_from
  unordered index [] [] h = refl
  unordered index [] (event ∷ events) h = absurd h
  unordered index (payload ∷ payloads) [] h = absurd h
  unordered index (payload ∷ payloads) (event ∷ events) h =
      rw (index_in_range index h.0, h.1, unordered (suc index) payloads events h.2) refl

  -- The payloads of an instruction decode to a list of events just if the events are as many, each payload
  -- decodes at its own place to its event, and no place is past 65535.
  pub decode_instruction_events-InOrder :
      (payloads : List (List ℕ)) (events : List DecodedPumpEvent)
      → (decode_instruction_events program_id slot signature instruction_index payloads ≡ ok events)
        ↔ InOrder 0 payloads events
  unfolding decode_instruction_events
  decode_instruction_events-InOrder payloads events =
      (ordered 0 payloads events, unordered 0 payloads events)
