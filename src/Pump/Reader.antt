-- ===== src/Pump/Reader.antt =====
-- crates/source-pump/src/decoder.rs: the errors of the decoder and the reader of an event's bytes.
-- A method that advances the reader returns the reader after it beside the value; an error ends the
-- decoding, so nothing reads the reader after one.
pub mod Framed
pub mod Integers
use soldisco.Prelude.{
  ℕ, zero, suc, ◌+◌, ◌-◌, ◌*◌, ◌^◌, String, List, [], ◌∷◌, Option, none, some, Bool, true, false,
  ltb, length, Result, ok, err, if◌then◌else◌,
}
use soldisco.Prelude.Int.{ℤ, pos, negsuc}
use soldisco.Prelude.Utf8.{from_utf8}
use soldisco.Pump.{PumpProgram}
use soldisco.Pump.Model.{PumpShareholder}
use soldisco.Pump.Base58.{encode_base58}

abbrev pub max_name_bytes : ℕ
max_name_bytes = 256

abbrev pub max_symbol_bytes : ℕ
max_symbol_bytes = 64

abbrev pub max_uri_bytes : ℕ
max_uri_bytes = 4096

abbrev pub max_instruction_name_bytes : ℕ
max_instruction_name_bytes = 96

abbrev pub max_shareholders : ℕ
max_shareholders = 64

pub data DecodeError : Type 0 where
  unsupported_program : String → DecodeError
  empty_signature missing_discriminator missing_cpi_discriminator : DecodeError
  unknown_discriminator : PumpProgram → List ℕ → DecodeError
  -- field, needed, remaining
  truncated : String → ℕ → ℕ → DecodeError
  invalid_utf8 : String → DecodeError
  invalid_boolean : String → ℕ → DecodeError
  -- field, limit, actual
  limit_exceeded : String → ℕ → ℕ → DecodeError
  trailing_bytes : ℕ → DecodeError
  invalid_program_data_log invalid_base64 : DecodeError
  too_many_events : ℕ → DecodeError

pub record BorshReader : Type 0 where
  pub bytes : List ℕ
  pub position : ℕ

abbrev pub new_reader : List ℕ → BorshReader
new_reader bytes = record { bytes = bytes; position = 0 }

-- A method on `&mut BorshReader`.
abbrev pub Read {ℓ} : Type ℓ → Type ℓ
Read A = BorshReader → Result DecodeError (A × BorshReader)

module _ {ℓ} {A : Type ℓ} where
  unfoldable pub pure : A → Read A
  pure value reader = ok (value, reader)

  abbrev pub read_on {κ} :
      {B : Type κ}
      → Result DecodeError (A × BorshReader)
      → (A → Read B)
      → Result DecodeError (B × BorshReader)
  read_on (err error) next = err error
  read_on (ok (value, after)) next = next value after

  infixl 5 ◌>>=◌
  unfoldable pub ◌>>=◌ {κ} : {B : Type κ} → Read A → (A → Read B) → Read B
  (m >>= next) reader = read_on (m reader) next

unfoldable pub fail {ℓ} : {A : Type ℓ} → DecodeError → Read A
fail error reader = err error

-- self.data.len().saturating_sub(self.position)
abbrev pub remaining : BorshReader → ℕ
remaining self = length self.bytes - self.position

unfoldable pub finish : BorshReader → Result DecodeError (Unit {0})
finish self = elim (remaining self) [ zero ↦ ok tt | suc n ↦ err (trailing_bytes (suc n)) ]

abbrev pub take_bytes : ℕ → List ℕ → List ℕ
take_bytes zero xs = []
take_bytes (suc n) [] = []
take_bytes (suc n) (x ∷ xs) = x ∷ take_bytes n xs

-- The bytes of `&xs[start..start + n]`.
abbrev pub slice : ℕ → ℕ → List ℕ → List ℕ
slice zero n xs = take_bytes n xs
slice (suc start) n [] = []
slice (suc start) n (x ∷ xs) = slice start n xs

unfoldable pub take : String → ℕ → Read (List ℕ)
take field n self =
    if ltb (remaining self) n
    then err (truncated field n (remaining self))
    else ok (slice self.position n self.bytes, record self { position = self.position + n })

-- The little-endian integers.
abbrev pub from_le_bytes : List ℕ → ℕ
from_le_bytes [] = 0
from_le_bytes (b ∷ bs) = b + 256 * from_le_bytes bs

-- Two's complement in w bits.
abbrev pub as_signed : ℕ → ℕ → ℤ
as_signed w n = if ltb n (2 ^ (w - 1)) then pos n else negsuc (2 ^ w - n - 1)

abbrev first_byte : List ℕ → ℕ
first_byte [] = 0
first_byte (b ∷ bs) = b

unfoldable pub u8 : String → Read ℕ
u8 field = do taken ← take field 1; pure (first_byte taken)

unfoldable pub u16 : String → Read ℕ
u16 field = do taken ← take field 2; pure (from_le_bytes taken)

unfoldable pub u32 : String → Read ℕ
u32 field = do taken ← take field 4; pure (from_le_bytes taken)

unfoldable pub u64 : String → Read ℕ
u64 field = do taken ← take field 8; pure (from_le_bytes taken)

unfoldable pub i64 : String → Read ℤ
i64 field = do taken ← take field 8; pure (as_signed 64 (from_le_bytes taken))

unfoldable pub i128 : String → Read ℤ
i128 field = do taken ← take field 16; pure (as_signed 128 (from_le_bytes taken))

unfoldable pub boolean_of : String → ℕ → Read Bool
boolean_of field zero = pure false
boolean_of field (suc zero) = pure true
boolean_of field value = fail (invalid_boolean field value)

unfoldable pub boolean : String → Read Bool
boolean field = do value ← u8 field; boolean_of field value

unfoldable pub pubkey : String → Read String
pubkey field = do taken ← take field 32; pure (encode_base58 taken)

unfoldable pub text_of : String → Option String → Read String
text_of field none = fail (invalid_utf8 field)
text_of field (some text) = pure text

-- An early return where a length exceeds its limit.
unfoldable pub within : String → ℕ → ℕ → Read (Unit {0})
within field limit actual =
    if ltb limit actual then fail (limit_exceeded field limit actual) else pure tt

unfoldable pub read_string : String → ℕ → Read String
read_string field limit = do
  n ← u32 field
  checked ← within field limit n
  taken ← take field n
  text_of field (from_utf8 taken)

unfoldable pub shareholder : Read PumpShareholder
shareholder = do
  address ← pubkey "shareholder.address"
  share_basis_points ← u16 "shareholder.share_bps"
  pure (record { address = address; share_basis_points = share_basis_points })

unfoldable pub shareholders_of : ℕ → Read (List PumpShareholder)
shareholders_of zero = pure []
shareholders_of (suc count) = do
  holder ← shareholder
  rest ← shareholders_of count
  pure (holder ∷ rest)

unfoldable pub shareholders : Read (List PumpShareholder)
shareholders = do
  count ← u32 "shareholders"
  checked ← within "shareholders" max_shareholders count
  shareholders_of count
