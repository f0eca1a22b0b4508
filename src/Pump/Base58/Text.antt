-- ===== src/Pump/Base58/Text.antt =====
-- The text of a key can be read back (crates/source-pump/src/decoder.rs).
use Prim.Native.Char.{Char, code}
use Prim.Native.String.{String}
use soldisco.Prelude.{
  ℕ, zero, suc, ◌+◌, ◌*◌, ◌<◌, List, [], ◌∷◌, Bool, Bool-cases, true, false, ◌&&◌, ◌==◌, ==_iff,
  inl, inr, if◌then◌else◌, length, ◌≡◌, refl, sym, ◌∙◌, ap, subst, arith,
}
use soldisco.Pump.Base58.{
  alphabet, alphabet_at, leading_zeroes, base58_digits, ones, letters, encode_base58,
}
use soldisco.Pump.Base58.Value.{
  value_from, AreBelow, base58_digits-value_from, base58_digits-AreBelow,
}

-- The place of a letter in a text of letters.
abbrev place : String → Char → ℕ
place String.[] c = 0
place (String.◌∷◌ d letters) c = if code c == code d then 0 else suc (place letters c)

-- The number that a text spells in base 58, below the digits already read.
abbrev pub text_value : ℕ → String → ℕ
text_value high String.[] = high
text_value high (String.◌∷◌ c text) = text_value (high * 58 + place alphabet c) text

-- The numbers below a bound that a function keeps.
fixed_below : (ℕ → ℕ) → ℕ → Bool
fixed_below f zero = true
fixed_below f (suc n) = f n == n && fixed_below f n

lt_of_ne : (n d : ℕ) → d < suc n → (d == n) ≡ false → d < n
lt_of_ne n d k h = ground arith

is_fixed : (f : ℕ → ℕ) (n d : ℕ) → fixed_below f n ≡ true → d < n → f d ≡ d
unfolding fixed_below
is_fixed f zero d h k = absurd (omega arith)
is_fixed f (suc n) d h k =
    let here : f n ≡ n = ground arith in
    let below : fixed_below f n ≡ true = ground arith in
    elim (Bool-cases (d == n)) [
      | inl last ↦ let same : n ≡ d = sym ((==_iff d n).0 last) in subst (λ m. f m ≡ m) same here
      | inr other ↦ is_fixed f n d below (omega (arith, lt_of_ne n d k other))
    ]

all_fixed : fixed_below (λ d. place alphabet (alphabet_at alphabet d)) 58 ≡ true
unfolding fixed_below
all_fixed = refl

placed : (d : ℕ) → d < 58 → place alphabet (alphabet_at alphabet d) ≡ d
placed d = is_fixed (λ d. place alphabet (alphabet_at alphabet d)) 58 d all_fixed

text_value-letters :
    (high : ℕ) (ds : List ℕ) → AreBelow 58 ds → text_value high (letters ds) ≡ value_from 58 high ds
text_value-letters high [] h = refl
text_value-letters high (d ∷ ds) h =
    ap (λ p. text_value (high * 58 + p) (letters ds)) (placed d h.0)
    ∙ text_value-letters (high * 58 + d) ds h.1

text_value-ones : (n : ℕ) (text : String) → text_value 0 (ones n text) ≡ text_value 0 text
text_value-ones zero text = refl
text_value-ones (suc n) text = text_value-ones n text

all_zeroes : (bytes : List ℕ) → leading_zeroes bytes ≡ length bytes → value_from 256 0 bytes ≡ 0
all_zeroes [] h = refl
all_zeroes (zero ∷ bytes) h = all_zeroes bytes (omega arith)
all_zeroes (suc b ∷ bytes) h = absurd (omega arith)

-- Read in base 58, the text of a key is the number that its bytes spell in base 256.
pub text_value-encode_base58 :
    (bytes : List ℕ) → text_value 0 (encode_base58 bytes) ≡ value_from 256 0 bytes
unfolding encode_base58
text_value-encode_base58 bytes =
    text_value-ones (leading_zeroes bytes) (digits_text (leading_zeroes bytes == length bytes))
    ∙ elim (Bool-cases (leading_zeroes bytes == length bytes)) [
      | inl zeroes ↦
          rw zeroes
            (sym (all_zeroes bytes ((==_iff (leading_zeroes bytes) (length bytes)).0 zeroes)))
      | inr other ↦ rw other (
          text_value-letters 0 (base58_digits bytes) (base58_digits-AreBelow bytes)
          ∙ base58_digits-value_from bytes)
    ]
  where
    digits_text : Bool → String
    digits_text zero_key = if zero_key then String.[] else letters (base58_digits bytes)

same_digits :
    (h k : ℕ) (xs ys : List ℕ)
    → length xs ≡ length ys
    → AreBelow 256 xs
    → AreBelow 256 ys
    → value_from 256 h xs ≡ value_from 256 k ys
    → (h ≡ k) × (xs ≡ ys)
same_digits h k [] [] n p q e = (e, refl)
same_digits h k (x ∷ xs) [] n p q e = absurd (omega arith)
same_digits h k [] (y ∷ ys) n p q e = absurd (omega arith)
same_digits h k (x ∷ xs) (y ∷ ys) n p q e =
    let later = same_digits (h * 256 + x) (k * 256 + y) xs ys (omega arith) p.1 q.1 e in
    let first : x ≡ y = omega arith in (omega arith, rw (first, later.1) refl)

-- Keys of the same length with the same text are the same key.
pub encode_base58_injective :
    (a b : List ℕ)
    → length a ≡ length b
    → AreBelow 256 a
    → AreBelow 256 b
    → encode_base58 a ≡ encode_base58 b
    → a ≡ b
encode_base58_injective a b n p q e =
    (same_digits 0 0 a b n p q
      (sym (text_value-encode_base58 a) ∙ ap (text_value 0) e ∙ text_value-encode_base58 b)).1
