-- ===== src/Pump/Decode/Attributed.antt =====
-- An event is its program's, of a pinned kind, and a CPI event is the event behind the prefix
-- (crates/source-pump/src/decoder.rs).
use soldisco.Prelude.{
  ℕ, String, some, List, [], ◌∷◌, ◌++◌, Bool, true, false, Option-cases, inl, inr, Result, ok, err,
  ◌>>=◌, ◌>>◌, >>=-eq-ok, >>-eq-ok, reject_if-eq-ok, if◌then◌else◌, ◌≡◌, refl, subst, arith, ltb,
  length,
}
use soldisco.Prelude.Text.{is_empty_text}
use soldisco.Domain.{ChainCoordinate}
use soldisco.Pump.{
  PumpProgram, pump, pump_swap, supported_program, bytes_eq, is_pinned_event_discriminator,
  anchor_event_cpi_discriminator, create_event_discriminator, trade_event_discriminator,
  complete_event_discriminator, complete_pump_amm_migration_event_discriminator,
  create_pool_event_discriminator, pump_swap_buy_event_discriminator,
  pump_swap_sell_event_discriminator, pump_swap_deposit_event_discriminator,
  pump_swap_withdraw_event_discriminator,
}
use soldisco.Pump.Model.{PumpEvent, DecodedPumpEvent}
use soldisco.Pump.Reader.{
  Read, BorshReader, DecodeError, unknown_discriminator, new_reader, finish, take_bytes,
  missing_discriminator, empty_signature, pure, fail, ◌>>=◌ as then_read, read_on,
}
use soldisco.Pump.Events.Curve.{
  decode_pump_create, decode_pump_trade, decode_pump_complete, decode_pump_migration,
}
use soldisco.Pump.Events.Swap.{
  decode_pump_swap_create_pool, decode_pump_swap_buy, decode_pump_swap_sell,
  decode_pump_swap_deposit, decode_pump_swap_withdraw,
}
use soldisco.Pump.Events.Dispatch.{decode_event, wrapped}
use soldisco.Pump.Decode.{
  strip_prefix, drop_bytes, event_bytes_of, decode_event_bytes, decode_anchor_event,
  decode_cpi_event, is_anchor_event_cpi,
}

-- The program that emits an event.
abbrev pub emitter : PumpEvent → PumpProgram
emitter (PumpEvent.create event) = pump
emitter (PumpEvent.trade event) = pump
emitter (PumpEvent.complete event) = pump
emitter (PumpEvent.complete_pump_amm_migration event) = pump
emitter _ = pump_swap

-- The values that a reader yields.
unfoldable Yields {ℓ κ} : {A : Type ℓ} → (A → Type κ) → Read A → Type (ℓ ⊔ κ)
Yields {A = A} P m = (self : BorshReader) (p : A × BorshReader) → m self ≡ ok p → P p.0

module _ {κ} (P : PumpEvent → Type κ) where
  wrapped-Yields {ℓ} :
      {A : Type ℓ} (variant : A → PumpEvent) (fields : Read A)
      → ((event : A) → P (variant event))
      → Yields P (wrapped variant fields)
  unfolding Yields wrapped then_read pure
  wrapped-Yields {A = A} variant fields holds self p h = at_fields (fields self) h
    where
      at_fields :
          (o : Result DecodeError (A × BorshReader))
          → read_on o (λ event. pure (variant event)) ≡ ok p
          → P p.0
      at_fields (err error) k = cc
      at_fields (ok (event, after)) k =
          let same : (variant event, after) ≡ p = cc in
          subst (λ (q : PumpEvent × BorshReader). P q.0) same (holds event)

  fail-Yields : (error : DecodeError) → Yields P (fail error)
  unfolding Yields fail
  fail-Yields error self p h = cc

  if-Yields :
      (b : Bool) (m n : Read PumpEvent)
      → (b ≡ true → Yields P m)
      → Yields P n
      → Yields P (if b then m else n)
  if-Yields true m n first second = first refl
  if-Yields false m n first second = second

bytes_eq_iff : (xs ys : List ℕ) → bytes_eq xs ys ≡ true → xs ≡ ys
unfolding bytes_eq
bytes_eq_iff [] [] h = refl
bytes_eq_iff [] (y ∷ ys) h = cc
bytes_eq_iff (x ∷ xs) [] h = cc
bytes_eq_iff (x ∷ xs) (y ∷ ys) h = ground (arith, bytes_eq_iff xs ys)

-- An event of the program, of a kind that the pinned schema lists.
abbrev pub IsPinned : PumpProgram → List ℕ → PumpEvent → Type 0
IsPinned program discriminator event =
    (emitter event ≡ program) × (is_pinned_event_discriminator program discriminator ≡ true)

kind_or {ℓ} :
    {A : Type ℓ} (program : PumpProgram) (discriminator kind : List ℕ) (variant : A → PumpEvent)
    (fields : Read A) (other : Read PumpEvent)
    → is_pinned_event_discriminator program kind ≡ true
    → ((event : A) → emitter (variant event) ≡ program)
    → Yields (IsPinned program discriminator) other
    → Yields
        (IsPinned program discriminator)
        (if bytes_eq discriminator kind then wrapped variant fields else other)
kind_or program discriminator kind variant fields other pinned emits later =
    if-Yields (IsPinned program discriminator) (bytes_eq discriminator kind)
      (wrapped variant fields) other
      (λ e.
        wrapped-Yields (IsPinned program discriminator) variant fields
          (λ event. (emits event, rw (bytes_eq_iff discriminator kind e) pinned)))
      later

decode_event-Yields :
    (program : PumpProgram) (discriminator : List ℕ)
    → Yields (IsPinned program discriminator) (decode_event program discriminator)
unfolding decode_event is_pinned_event_discriminator bytes_eq
decode_event-Yields pump d =
    kind_or pump d create_event_discriminator PumpEvent.create decode_pump_create _ refl (λ e. refl)
      (kind_or pump d trade_event_discriminator PumpEvent.trade decode_pump_trade _ refl (λ e. refl)
        (kind_or pump d complete_event_discriminator PumpEvent.complete decode_pump_complete _ refl
          (λ e. refl)
          (kind_or pump d complete_pump_amm_migration_event_discriminator
            PumpEvent.complete_pump_amm_migration decode_pump_migration _ refl (λ e. refl)
            (fail-Yields (IsPinned pump d) (unknown_discriminator pump d)))))
decode_event-Yields pump_swap d =
    kind_or pump_swap d create_pool_event_discriminator PumpEvent.pump_swap_create_pool
      decode_pump_swap_create_pool _ refl (λ e. refl)
      (kind_or pump_swap d pump_swap_buy_event_discriminator PumpEvent.pump_swap_buy
        decode_pump_swap_buy _ refl (λ e. refl)
        (kind_or pump_swap d pump_swap_sell_event_discriminator PumpEvent.pump_swap_sell
          decode_pump_swap_sell _ refl (λ e. refl)
          (kind_or pump_swap d pump_swap_deposit_event_discriminator PumpEvent.pump_swap_deposit
            decode_pump_swap_deposit _ refl (λ e. refl)
            (kind_or pump_swap d pump_swap_withdraw_event_discriminator PumpEvent.pump_swap_withdraw
              decode_pump_swap_withdraw _ refl (λ e. refl)
              (fail-Yields (IsPinned pump_swap d) (unknown_discriminator pump_swap d))))))

-- What a decoded event says of the call that decoded it.
pub record Attribution (program_id : String) (coordinate : ChainCoordinate) (bytes : List ℕ)
    (event : DecodedPumpEvent) : Type 0 where
  pub of_program : supported_program program_id ≡ some event.program
  pub at_coordinate : event.coordinate ≡ coordinate
  pub pinned : IsPinned event.program (take_bytes 8 (event_bytes_of bytes)) event.event

decode_event_bytes-IsPinned :
    (program : PumpProgram) (bytes : List ℕ) (event : PumpEvent)
    → decode_event_bytes program bytes ≡ ok event
    → IsPinned program (take_bytes 8 bytes) event
unfolding decode_event_bytes Yields
decode_event_bytes-IsPinned program bytes event h =
    let reading = decode_event program (take_bytes 8 bytes) (new_reader (drop_bytes 8 bytes)) in
    let (long, read_ok) =
      reject_if-eq-ok (ltb (length bytes) 8) missing_discriminator
        (reading >>= (λ read. finish read.1 >> ok read.0)) h in
    let ((value, after), e, finished) =
      >>=-eq-ok reading (λ read. finish read.1 >> ok read.0) read_ok in
    let result : value ≡ event = cc ((>>-eq-ok (finish after) (ok value) finished).1) in
    subst (IsPinned program (take_bytes 8 bytes)) result (
      decode_event-Yields program (take_bytes 8 bytes) (new_reader (drop_bytes 8 bytes))
        (value, after) e)

-- A decoded event carries the program of the id and the coordinate given, it is an event that this
-- program emits, and its discriminator is in the program's pinned schema.
pub decode_anchor_event-Attribution :
    (program_id : String) (coordinate : ChainCoordinate) (bytes : List ℕ) (event : DecodedPumpEvent)
    → decode_anchor_event program_id coordinate bytes ≡ ok event
    → Attribution program_id coordinate bytes event
unfolding decode_anchor_event
decode_anchor_event-Attribution program_id coordinate bytes event h =
    elim (Option-cases (supported_program program_id)) [
      | inl unknown ↦ cc (rw unknown at h)
      | inr (program, known) ↦
          let built_from = decode_event_bytes program (event_bytes_of bytes) in
          let build = λ (inner : PumpEvent).
            ok (record { program = program; coordinate = coordinate; event = inner }) in
          let (signed, passed) =
            reject_if-eq-ok (is_empty_text coordinate.signature) empty_signature
              (built_from >>= build) (rw known at h) in
          let (inner, decoded, built) = >>=-eq-ok built_from build passed in
          let same : record { program = program; coordinate = coordinate; event = inner } ≡ event =
            cc in
          subst (Attribution program_id coordinate bytes) same (record {
            of_program = known;
            at_coordinate = refl;
            pinned = decode_event_bytes-IsPinned program (event_bytes_of bytes) inner decoded;
          })
    ]

strip_prefix_own : (prefix bytes : List ℕ) → strip_prefix prefix (prefix ++ bytes) ≡ some bytes
unfolding strip_prefix
strip_prefix_own [] bytes = refl
strip_prefix_own (p ∷ prefix) bytes = ground (arith, strip_prefix_own prefix bytes)

is_anchor_event_cpi_own :
    (bytes : List ℕ) → is_anchor_event_cpi (anchor_event_cpi_discriminator ++ bytes) ≡ true
unfolding is_anchor_event_cpi
is_anchor_event_cpi_own bytes =
    rw (is_anchor_event_cpi, strip_prefix_own anchor_event_cpi_discriminator bytes) refl

-- A payload without the CPI prefix decodes to the same event or error by itself and as the event CPI that
-- carries it.
decode_cpi_event-carried :
    (program_id : String) (coordinate : ChainCoordinate) (bytes : List ℕ)
    → is_anchor_event_cpi bytes ≡ false
    → decode_cpi_event program_id coordinate (anchor_event_cpi_discriminator ++ bytes)
      ≡ decode_anchor_event program_id coordinate bytes
unfolding decode_cpi_event decode_anchor_event is_anchor_event_cpi
decode_cpi_event-carried program_id coordinate bytes h =
    elim (Option-cases (strip_prefix anchor_event_cpi_discriminator bytes)) [
      | inl bare ↦
          rw
            (
              is_anchor_event_cpi_own bytes,
              strip_prefix_own anchor_event_cpi_discriminator bytes,
              bare,
            )
            refl
      | inr (rest, found) ↦ cc (rw (is_anchor_event_cpi, found) at h)
    ]
