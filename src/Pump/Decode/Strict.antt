-- ===== src/Pump/Decode/Strict.antt =====
-- The decoder reads all of a payload and nothing past it (crates/source-pump/src/decoder.rs).
use soldisco.Prelude.{
  ℕ, zero, suc, ◌≤◌, String, none, some, List, [], ◌∷◌, ◌++◌, Bool, true, false, ltb, ltb→le,
  length, length-append, inl, inr, Option-cases, ok, err, ◌>>=◌, ◌>>◌, >>=-eq-ok, >>-eq-ok,
  reject_if-eq-ok, if◌then◌else◌, ◌≡◌, refl, ap, arith,
}
use soldisco.Prelude.Text.{is_empty_text}
use soldisco.Domain.{ChainCoordinate}
use soldisco.Pump.{PumpProgram, pump, pump_swap, supported_program, anchor_event_cpi_discriminator}
use soldisco.Pump.Model.{PumpEvent, DecodedPumpEvent}
use soldisco.Pump.Reader.{
  Read, BorshReader, new_reader, finish, take_bytes, trailing_bytes, missing_discriminator,
  empty_signature, pure,
}
use soldisco.Pump.Reader.Framed.{
  IsFramed, extend, pure-IsFramed, >>=-IsFramed, fail-IsFramed, take_bytes-append,
}
use soldisco.Pump.Events.Dispatch.{decode_event, wrapped}
use soldisco.Pump.Events.Framed.{
  decode_pump_create-IsFramed, decode_pump_trade-IsFramed, decode_pump_complete-IsFramed,
  decode_pump_migration-IsFramed, decode_pump_swap_create_pool-IsFramed,
  decode_pump_swap_buy-IsFramed, decode_pump_swap_sell-IsFramed, decode_pump_swap_deposit-IsFramed,
  decode_pump_swap_withdraw-IsFramed,
}
use soldisco.Pump.Decode.{
  strip_prefix, drop_bytes, event_bytes_of, decode_event_bytes, decode_anchor_event,
}

wrapped-IsFramed {ℓ} :
    {A : Type ℓ} (variant : A → PumpEvent) (fields : Read A)
    → IsFramed fields
    → IsFramed (wrapped variant fields)
unfolding wrapped
wrapped-IsFramed variant fields framed =
    >>=-IsFramed fields (λ event. pure (variant event)) framed
      (λ event. pure-IsFramed (variant event))

if-IsFramed {ℓ} :
    {A : Type ℓ} (b : Bool) (m n : Read A) → IsFramed m → IsFramed n → IsFramed (if b then m else n)
if-IsFramed true m n p q = p
if-IsFramed false m n p q = q

ruleset framed_events = (
  wrapped-IsFramed, if-IsFramed, fail-IsFramed, decode_pump_create-IsFramed,
  decode_pump_trade-IsFramed, decode_pump_complete-IsFramed, decode_pump_migration-IsFramed,
  decode_pump_swap_create_pool-IsFramed, decode_pump_swap_buy-IsFramed,
  decode_pump_swap_sell-IsFramed, decode_pump_swap_deposit-IsFramed,
  decode_pump_swap_withdraw-IsFramed,
)

decode_event-IsFramed :
    (program : PumpProgram) (discriminator : List ℕ) → IsFramed (decode_event program discriminator)
unfolding decode_event
decode_event-IsFramed pump discriminator = search framed_events depth 20
decode_event-IsFramed pump_swap discriminator = search framed_events depth 20

drop_bytes-append :
    (n : ℕ) (xs ys : List ℕ) → n ≤ length xs → drop_bytes n (xs ++ ys) ≡ drop_bytes n xs ++ ys
drop_bytes-append zero xs ys h = refl
drop_bytes-append (suc n) [] ys h = absurd (omega arith)
drop_bytes-append (suc n) (x ∷ xs) ys h = drop_bytes-append n xs ys (omega arith)

finish-eq-ok : (self : BorshReader) → finish self ≡ ok tt → length self.bytes ≤ self.position
unfolding finish
finish-eq-ok self h = ground arith

finish_longer :
    (self : BorshReader) (x : ℕ) (extra : List ℕ)
    → length self.bytes ≡ self.position
    → finish (extend self (x ∷ extra)) ≡ err (trailing_bytes (suc (length extra)))
unfolding finish
finish_longer self x extra h = ground (arith, length-append self.bytes (x ∷ extra))

decode_event_bytes_strict :
    (program : PumpProgram) (bytes : List ℕ) (event : PumpEvent) (x : ℕ) (extra : List ℕ)
    → decode_event_bytes program bytes ≡ ok event
    → (8 ≤ length bytes)
      × (decode_event_bytes program (bytes ++ (x ∷ extra))
          ≡ err (trailing_bytes (suc (length extra))))
unfolding decode_event_bytes IsFramed
decode_event_bytes_strict program bytes event x extra h =
    let discriminator = take_bytes 8 bytes in
    let reader = new_reader (drop_bytes 8 bytes) in
    let (short, read_ok) =
      reject_if-eq-ok (ltb (length bytes) 8) missing_discriminator
        (decode_event program discriminator reader >>= (λ read. finish read.1 >> ok read.0)) h in
    let ((value, after), e, finished) =
      >>=-eq-ok (decode_event program discriminator reader) (λ read. finish read.1 >> ok read.0)
        read_ok in
    let (same, inside, again) =
      decode_event-IsFramed program discriminator reader (value, after) (omega arith) e in
    let at_end = (>>-eq-ok (finish after) (ok value) finished).0 in
    let enough : 8 ≤ length bytes = ltb→le (length bytes) 8 short in
    let longer : ltb (length (bytes ++ (x ∷ extra))) 8 ≡ false =
      ground (arith, length-append bytes (x ∷ extra)) in
    (
      enough,
      rw
          (
            longer,
            take_bytes-append 8 bytes (x ∷ extra) enough,
            drop_bytes-append 8 bytes (x ∷ extra) enough,
            again (x ∷ extra),
          )
          (ap (λ o. o >> ok value)
            (finish_longer after x extra (omega (arith, finish-eq-ok after at_end)))),
    )

strip_prefix-append :
    (prefix xs ys rest : List ℕ)
    → strip_prefix prefix xs ≡ some rest
    → strip_prefix prefix (xs ++ ys) ≡ some (rest ++ ys)
unfolding strip_prefix
strip_prefix-append [] xs ys rest h = ground arith
strip_prefix-append (p ∷ prefix) [] ys rest h = cc
strip_prefix-append (p ∷ prefix) (x ∷ xs) ys rest h =
    ground (arith, strip_prefix-append prefix xs ys rest)

strip_prefix-append-none :
    (prefix xs ys : List ℕ)
    → length prefix ≤ length xs
    → strip_prefix prefix xs ≡ none
    → strip_prefix prefix (xs ++ ys) ≡ none
unfolding strip_prefix
strip_prefix-append-none [] xs ys long h = cc
strip_prefix-append-none (p ∷ prefix) [] ys long h = absurd (omega arith)
strip_prefix-append-none (p ∷ prefix) (x ∷ xs) ys long h =
    ground (arith, strip_prefix-append-none prefix xs ys (omega arith))

stripped_longer :
    (bytes extra : List ℕ)
    → 8 ≤ length (event_bytes_of bytes)
    → event_bytes_of (bytes ++ extra) ≡ event_bytes_of bytes ++ extra
stripped_longer bytes extra long =
    elim (Option-cases (strip_prefix anchor_event_cpi_discriminator bytes)) [
      | inl bare ↦
          rw
            (
              bare,
              strip_prefix-append-none anchor_event_cpi_discriminator bytes extra (rw bare at long)
                  bare,
            )
            refl
      | inr (rest, found) ↦
          rw (found, strip_prefix-append anchor_event_cpi_discriminator bytes extra rest found) refl
    ]

-- A payload that decodes does not decode with bytes behind it: the error says how many they are.
pub decode_anchor_event_strict :
    (program_id : String) (coordinate : ChainCoordinate) (bytes : List ℕ) (event : DecodedPumpEvent)
    (x : ℕ) (extra : List ℕ)
    → decode_anchor_event program_id coordinate bytes ≡ ok event
    → decode_anchor_event program_id coordinate (bytes ++ (x ∷ extra))
      ≡ err (trailing_bytes (suc (length extra)))
unfolding decode_anchor_event
decode_anchor_event_strict program_id coordinate bytes event x extra h =
    elim (Option-cases (supported_program program_id)) [
      | inl unknown ↦ cc (rw unknown at h)
      | inr (program, known) ↦
          let checked =
            reject_if-eq-ok (is_empty_text coordinate.signature) empty_signature
              (decode_event_bytes program (event_bytes_of bytes) >>= (λ event.
                ok (record { program = program; coordinate = coordinate; event = event })))
              (rw known at h) in
          let (inner, decoded, built) =
            >>=-eq-ok (decode_event_bytes program (event_bytes_of bytes))
              (λ event. ok (record { program = program; coordinate = coordinate; event = event }))
              checked.1 in
          let strict =
            decode_event_bytes_strict program (event_bytes_of bytes) inner x extra decoded in
          rw (known, checked.0, stripped_longer bytes (x ∷ extra) strict.0, strict.1) refl
    ]
