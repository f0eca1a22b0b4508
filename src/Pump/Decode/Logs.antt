-- ===== src/Pump/Decode/Logs.antt =====
-- The `Program data:` logs of an instruction carry its events (crates/source-pump/src/decoder.rs).
use mathlib.Core.List.{append_assoc, append-nil}
use soldisco.Prelude.{
  ℕ, suc, String, Option, none, some, List, [], ◌∷◌, ◌++◌, length, length-append, Option-cases, inl,
  inr, Result, ok, err, ◌>>=◌, >>=-eq-ok, ◌≡◌, refl, sym, ◌∙◌, ap, subst, arith,
}
use soldisco.Prelude.Text.{strip_text}
use soldisco.Pump.Model.{DecodedPumpEvent}
use soldisco.Pump.Reader.{DecodeError}
use soldisco.Pump.Decode.{
  decode_anchor_event, decode_events_from, decode_instruction_events, decode_logs_after,
  decode_program_data_bytes, decode_program_data_log, decode_instruction_program_data_logs,
  event_index_of, coordinate_at, program_data_prefix,
}

bind_ok : (o : Result DecodeError (List DecodedPumpEvent)) → (o >>= (λ later. ok later)) ≡ o
bind_ok (ok events) = refl
bind_ok (err error) = refl

abbrev Events : Type 0
Events = List DecodedPumpEvent

-- One event more, before the later ones or behind the events so far.
push_event :
    (events : Events) (index : Result DecodeError ℕ)
    (decoded : ℕ → Result DecodeError DecodedPumpEvent) (after : Events → Result DecodeError Events)
    (later : Result DecodeError Events)
    → ((event : DecodedPumpEvent)
        → after (events ++ (event ∷ []))
          ≡ (later >>= (λ rest. ok ((events ++ (event ∷ [])) ++ rest))))
    → (index >>= (λ i. decoded i >>= (λ event. after (events ++ (event ∷ []))))) ≡ (
        (index >>= (λ i. decoded i >>= (λ event. later >>= (λ rest. ok (event ∷ rest)))))
        >>= (λ rest. ok (events ++ rest)))
push_event events (err error) decoded after later h = refl
push_event events (ok i) decoded after later h = at_event (decoded i) later h
  where
    at_event :
        (d : Result DecodeError DecodedPumpEvent) (later : Result DecodeError Events)
        → ((event : DecodedPumpEvent)
            → after (events ++ (event ∷ []))
              ≡ (later >>= (λ rest. ok ((events ++ (event ∷ [])) ++ rest))))
        → (d >>= (λ event. after (events ++ (event ∷ [])))) ≡ (
            (d >>= (λ event. later >>= (λ rest. ok (event ∷ rest))))
            >>= (λ rest. ok (events ++ rest)))
    at_event (err error) later h = refl
    at_event (ok event) (err error) h = h event
    at_event (ok event) (ok rest) h = h event ∙ ap ok (append_assoc events (event ∷ []) rest)

module _ (base64_decode : String → Option (List ℕ)) where
  -- The payloads of the logs that start with the prefix.
  abbrev pub payloads_of : List String → Result DecodeError (List (List ℕ))
  payloads_of [] = ok []
  payloads_of (log ∷ logs) = elim (strip_text program_data_prefix log) [
    | none ↦ payloads_of logs
    | some encoded ↦ (do
      payload ← decode_program_data_bytes base64_decode log
      payloads ← payloads_of logs
      ok (payload ∷ payloads))
  ]

  module _ (program_id : String) (slot : ℕ) (signature : String) (instruction_index : ℕ) where
    logs_after :
        (events : Events) (logs : List String) (payloads : List (List ℕ))
        → payloads_of logs ≡ ok payloads
        → decode_logs_after base64_decode program_id slot signature instruction_index events logs
          ≡ (decode_events_from program_id slot signature instruction_index (length events) payloads
              >>= (λ later. ok (events ++ later)))
    unfolding decode_logs_after decode_events_from decode_program_data_log
    logs_after events [] payloads h =
        let none_left : [] ≡ payloads = cc in
        subst
          (λ ps. Path (Result DecodeError Events) (ok events) (
            decode_events_from program_id slot signature instruction_index (length events) ps
            >>= (λ later. ok (events ++ later))))
          none_left (ap ok (sym (append-nil events)))
    logs_after events (log ∷ logs) payloads h =
        elim (Option-cases (strip_text program_data_prefix log)) [
          | inl other ↦ rw other (logs_after events logs payloads (rw other at h))
          | inr (encoded, found) ↦
              let (payload, bytes_ok, h1) =
                >>=-eq-ok (decode_program_data_bytes base64_decode log)
                  (λ payload. payloads_of logs >>= (λ ps. ok (payload ∷ ps))) (rw found at h) in
              let (rest, rest_ok, built) =
                >>=-eq-ok (payloads_of logs) (λ ps. ok (payload ∷ ps)) h1 in
              let same : payload ∷ rest ≡ payloads = cc in
              subst
                (λ ps.
                  decode_logs_after base64_decode program_id slot signature instruction_index events
                    (log ∷ logs)
                  ≡ (decode_events_from program_id slot signature instruction_index (length events)
                        ps
                      >>= (λ later. ok (events ++ later))))
                same
                (rw (found, bytes_ok)
                  (push_event events (event_index_of (length events))
                    (λ i.
                      decode_anchor_event program_id
                        (coordinate_at slot signature instruction_index i) payload)
                    (λ es.
                      decode_logs_after base64_decode program_id slot signature instruction_index es
                        logs)
                    (decode_events_from program_id slot signature instruction_index
                      (suc (length events)) rest)
                    (λ event.
                      one_longer event _ rest
                        (logs_after (events ++ (event ∷ [])) logs rest rest_ok))))
        ]
      where
        one_longer :
            (event : DecodedPumpEvent) (o : Result DecodeError Events) (rest : List (List ℕ))
            → o ≡ (
                decode_events_from program_id slot signature instruction_index
                  (length (events ++ (event ∷ [])))
                  rest
                >>= (λ later. ok ((events ++ (event ∷ [])) ++ later)))
            → o ≡ (
                decode_events_from program_id slot signature instruction_index
                  (suc (length events))
                  rest
                >>= (λ later. ok ((events ++ (event ∷ [])) ++ later)))
        one_longer event o rest h =
            let longer : length (events ++ (event ∷ [])) ≡ suc (length events) =
              omega (arith, length-append events (event ∷ [])) in
            rw longer at h

    -- Where every `Program data:` log of an instruction carries valid base64, decoding the logs gives what
    -- decoding their payloads in that order gives, events or error; other logs take no index.
    pub decode_instruction_program_data_logs-payloads_of :
        (logs : List String) (payloads : List (List ℕ))
        → payloads_of logs ≡ ok payloads
        → decode_instruction_program_data_logs base64_decode program_id slot signature
            instruction_index logs
          ≡ decode_instruction_events program_id slot signature instruction_index payloads
    unfolding decode_instruction_program_data_logs decode_instruction_events
    decode_instruction_program_data_logs-payloads_of logs payloads h =
        logs_after [] logs payloads h ∙ bind_ok _
