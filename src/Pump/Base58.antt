-- ===== src/Pump/Base58.antt =====
-- crates/source-pump/src/decoder.rs: the base 58 text of a public key.
pub mod Value
pub mod Text
use Prim.Native.Char.{Char, nul}
use Prim.Native.String.{String, ◌++◌}
use soldisco.Prelude.{
  ℕ, zero, suc, ◌+◌, ◌*◌, ◌/◌, ◌%◌, List, [], ◌∷◌, Bool, true, false, not, ◌==◌, length, reverse,
  if◌then◌else◌, ◌≡◌, refl,
}

abbrev pub alphabet : String
alphabet = "123456789ABCDEFGHJKLMNPQRSTUVWXYZabcdefghijkmnopqrstuvwxyz"

abbrev pub alphabet_at : String → ℕ → Char
alphabet_at String.[] i = nul
alphabet_at (String.◌∷◌ c rest) zero = c
alphabet_at (String.◌∷◌ c rest) (suc i) = alphabet_at rest i

-- bytes.iter().take_while(|byte| **byte == 0).count()
abbrev pub leading_zeroes : List ℕ → ℕ
leading_zeroes [] = 0
leading_zeroes (zero ∷ bytes) = suc (leading_zeroes bytes)
leading_zeroes (suc b ∷ bytes) = 0

-- while carry > 0 { digits.push(carry % 58); carry /= 58 }, on fuel: a carry falls each time.
unfoldable pub push_carry : ℕ → ℕ → List ℕ
push_carry zero carry = []
push_carry (suc fuel) carry =
    let rest = push_carry fuel (carry / 58) in if carry == 0 then [] else carry % 58 ∷ rest

-- The two loops of one byte: the digits times 256, plus the carry. The digits stand lowest first.
unfoldable pub push_byte : List ℕ → ℕ → List ℕ
push_byte [] carry = push_carry carry carry
push_byte (digit ∷ digits) carry =
    let value = digit * 256 + carry in value % 58 ∷ push_byte digits (value / 58)

unfoldable pub digits_from : List ℕ → List ℕ → List ℕ
digits_from digits [] = digits
digits_from digits (byte ∷ bytes) = digits_from (push_byte digits byte) bytes

-- while digits.len() > 1 && digits.last() == Some(&0) { digits.pop() }, on the digits highest first.
unfoldable pub pop_zeroes : List ℕ → List ℕ
pop_zeroes (zero ∷ (next ∷ digits)) = pop_zeroes (next ∷ digits)
pop_zeroes digits = digits

-- The digits in the order in which the last loop writes them.
unfoldable pub base58_digits : List ℕ → List ℕ
base58_digits bytes = pop_zeroes (reverse (digits_from (0 ∷ []) bytes))

abbrev pub ones : ℕ → String → String
ones zero text = text
ones (suc n) text = String.◌∷◌ "1" (ones n text)

abbrev pub letters : List ℕ → String
letters [] = String.[]
letters (digit ∷ digits) = String.◌∷◌ (alphabet_at alphabet digit) (letters digits)

unfoldable pub encode_base58 : List ℕ → String
encode_base58 bytes =
    ones (leading_zeroes bytes)
      (if leading_zeroes bytes == length bytes then String.[] else letters (base58_digits bytes))
