-- ===== src/Pump/Base58/Value.antt =====
-- The digits of a key have its value (crates/source-pump/src/decoder.rs).
use mathlib.Core.List.{reverse_aux}
use soldisco.Prelude.{
  ℕ, zero, suc, ◌+◌, ◌*◌, ◌/◌, ◌≤◌, ◌<◌, List, [], ◌∷◌, reverse, Bool, true, false, ◌==◌,
  if◌then◌else◌, All, ◌≡◌, refl, ◌∙◌, ap, arith,
}
use soldisco.Pump.Base58.{push_carry, push_byte, digits_from, pop_zeroes, base58_digits}

-- The number that the digits spell in a base, highest first, below the digits already read.
abbrev pub value_from : ℕ → ℕ → List ℕ → ℕ
value_from base high [] = high
value_from base high (d ∷ ds) = value_from base (high * base + d) ds

-- The number that the digits spell in base 58, lowest first.
abbrev low_value : List ℕ → ℕ
low_value [] = 0
low_value (d ∷ ds) = d + 58 * low_value ds

value_from-reverse_aux :
    (ds rest : List ℕ) → value_from 58 0 (reverse_aux ds rest) ≡ value_from 58 (low_value ds) rest
value_from-reverse_aux [] rest = refl
value_from-reverse_aux (d ∷ ds) rest =
    value_from-reverse_aux ds (d ∷ rest) ∙ ap (λ v. value_from 58 v rest) (omega arith)

low_value-push_carry : (fuel carry : ℕ) → carry ≤ fuel → low_value (push_carry fuel carry) ≡ carry
unfolding push_carry
low_value-push_carry zero carry h = omega arith
low_value-push_carry (suc fuel) carry h =
    let rest = low_value-push_carry fuel (carry / 58) in ground (arith, rest)

low_value-push_byte :
    (digits : List ℕ) (carry : ℕ)
    → low_value (push_byte digits carry) ≡ low_value digits * 256 + carry
unfolding push_byte
low_value-push_byte [] carry = omega (arith, low_value-push_carry carry carry (omega arith))
low_value-push_byte (d ∷ ds) carry = omega (arith, low_value-push_byte ds ((d * 256 + carry) / 58))

low_value-digits_from :
    (digits bytes : List ℕ)
    → low_value (digits_from digits bytes) ≡ value_from 256 (low_value digits) bytes
unfolding digits_from
low_value-digits_from digits [] = refl
low_value-digits_from digits (byte ∷ bytes) =
    low_value-digits_from (push_byte digits byte) bytes
    ∙ ap (λ v. value_from 256 v bytes) (low_value-push_byte digits byte)

value_from-pop_zeroes : (ds : List ℕ) → value_from 58 0 (pop_zeroes ds) ≡ value_from 58 0 ds
unfolding pop_zeroes
value_from-pop_zeroes [] = refl
value_from-pop_zeroes (zero ∷ []) = refl
value_from-pop_zeroes (suc d ∷ ds) = refl
value_from-pop_zeroes (zero ∷ (next ∷ ds)) = value_from-pop_zeroes (next ∷ ds)

-- The base 58 digits of a key spell the number that its bytes spell in base 256.
pub base58_digits-value_from :
    (bytes : List ℕ) → value_from 58 0 (base58_digits bytes) ≡ value_from 256 0 bytes
unfolding base58_digits
base58_digits-value_from bytes =
    value_from-pop_zeroes (reverse (digits_from (0 ∷ []) bytes))
    ∙ value_from-reverse_aux (digits_from (0 ∷ []) bytes) []
    ∙ low_value-digits_from (0 ∷ []) bytes

-- Digits below a base.
abbrev pub AreBelow : ℕ → List ℕ → Type 0
AreBelow base = All (λ d. d < base)

push_carry-AreBelow : (fuel carry : ℕ) → AreBelow 58 (push_carry fuel carry)
unfolding push_carry
push_carry-AreBelow zero carry = tt
push_carry-AreBelow (suc fuel) carry =
    at_test (carry == 0) _ _ (omega arith) (push_carry-AreBelow fuel (carry / 58))
  where
    at_test :
        (b : Bool) (digit : ℕ) (rest : List ℕ)
        → digit < 58
        → AreBelow 58 rest
        → AreBelow 58 (if b then [] else digit ∷ rest)
    at_test true digit rest h k = tt
    at_test false digit rest h k = (h, k)

push_byte-AreBelow : (ds : List ℕ) (carry : ℕ) → AreBelow 58 (push_byte ds carry)
unfolding push_byte
push_byte-AreBelow [] carry = push_carry-AreBelow carry carry
push_byte-AreBelow (d ∷ ds) carry = (omega arith, push_byte-AreBelow ds ((d * 256 + carry) / 58))

digits_from-AreBelow : (ds bytes : List ℕ) → AreBelow 58 ds → AreBelow 58 (digits_from ds bytes)
unfolding digits_from
digits_from-AreBelow ds [] h = h
digits_from-AreBelow ds (byte ∷ bytes) h =
    digits_from-AreBelow (push_byte ds byte) bytes (push_byte-AreBelow ds byte)

reverse_aux-AreBelow :
    (ds rest : List ℕ) → AreBelow 58 ds → AreBelow 58 rest → AreBelow 58 (reverse_aux ds rest)
reverse_aux-AreBelow [] rest h k = k
reverse_aux-AreBelow (d ∷ ds) rest h k = reverse_aux-AreBelow ds (d ∷ rest) h.1 (h.0, k)

pop_zeroes-AreBelow : (ds : List ℕ) → AreBelow 58 ds → AreBelow 58 (pop_zeroes ds)
unfolding pop_zeroes
pop_zeroes-AreBelow [] h = h
pop_zeroes-AreBelow (zero ∷ []) h = h
pop_zeroes-AreBelow (suc d ∷ ds) h = h
pop_zeroes-AreBelow (zero ∷ (next ∷ ds)) h = pop_zeroes-AreBelow (next ∷ ds) h.1

pub base58_digits-AreBelow : (bytes : List ℕ) → AreBelow 58 (base58_digits bytes)
unfolding base58_digits
base58_digits-AreBelow bytes = pop_zeroes-AreBelow (reverse (digits_from (0 ∷ []) bytes)) (
    reverse_aux-AreBelow (digits_from (0 ∷ []) bytes) []
      (digits_from-AreBelow (0 ∷ []) bytes (omega arith, tt)) tt)
