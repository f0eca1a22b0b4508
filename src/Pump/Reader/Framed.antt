-- ===== src/Pump/Reader/Framed.antt =====
-- What follows the bytes that a reader takes does not change what it reads (crates/source-pump/src/decoder.rs).
use soldisco.Prelude.{
  ℕ, zero, suc, ◌+◌, ◌≤◌, Bool, String, List, [], ◌∷◌, ◌++◌, Option, none, some, ltb, length,
  length-append, Bool-cases, inl, inr, Result, ok, err, at_ok, true, false, ◌≡◌, refl, ap, ◌∙◌,
  arith, if◌then◌else◌,
}
use soldisco.Pump.Reader.{
  BorshReader, DecodeError, invalid_boolean, invalid_utf8, limit_exceeded, Read, read_on, pure,
  ◌>>=◌, fail, take, take_bytes, slice, remaining, u8, u16, u32, u64, i64, i128, boolean,
  boolean_of, pubkey, text_of, within, read_string, shareholder, shareholders_of, shareholders,
}

abbrev pub extend : BorshReader → List ℕ → BorshReader
extend self extra = record self { bytes = self.bytes ++ extra }

-- The reader p.1 is in bounds, on the same bytes, and with more bytes behind them p.0 is read again.
abbrev Framing {ℓ} : {A : Type ℓ} → Read A → BorshReader → A × BorshReader → Type ℓ
Framing m self p =
    (p.1.bytes ≡ self.bytes)
    × (p.1.position ≤ length p.1.bytes)
    × ((extra : List ℕ) → m (extend self extra) ≡ ok (p.0, extend p.1 extra))

-- What a reader in bounds reads is framed.
unfoldable pub IsFramed {ℓ} : {A : Type ℓ} → Read A → Type ℓ
IsFramed {A} m =
    (self : BorshReader) (p : A × BorshReader)
    → self.position ≤ length self.bytes
    → m self ≡ ok p
    → Framing m self p

module _ {ℓ} {A : Type ℓ} where
  pub pure-IsFramed : (value : A) → IsFramed (pure value)
  unfolding IsFramed pure
  pure-IsFramed value self p inside h =
      at_ok (Framing (pure value) self) h (refl, inside, λ extra. refl)

  pub >>=-IsFramed {κ} :
      {B : Type κ} (m : Read A) (next : A → Read B)
      → IsFramed m
      → ((value : A) → IsFramed (next value))
      → IsFramed (m >>= next)
  unfolding IsFramed ◌>>=◌
  >>=-IsFramed {B} m next first second self p inside h = from_first (m self) refl h
    where
      from_first :
          (o : Result DecodeError (A × BorshReader))
          → m self ≡ o
          → read_on o next ≡ ok p
          → Framing (m >>= next) self p
      from_first (err error) e k = cc
      from_first (ok (value, middle)) e k =
          let f = first self (value, middle) inside e in
          let s = second value middle p f.1 k in
          (s.0 ∙ f.0, s.1, λ extra. ap (λ o. read_on o next) (f.2 extra) ∙ s.2 extra)

pub fail-IsFramed {ℓ} : (A : Type ℓ) (error : DecodeError) → IsFramed (fail {A = A} error)
unfolding IsFramed fail
fail-IsFramed A error self p inside h = cc

pub take_bytes-append :
    (n : ℕ) (xs ys : List ℕ) → n ≤ length xs → take_bytes n (xs ++ ys) ≡ take_bytes n xs
take_bytes-append zero xs ys h = refl
take_bytes-append (suc n) [] ys h = absurd (omega arith)
take_bytes-append (suc n) (x ∷ xs) ys h = ap (λ l. x ∷ l) (take_bytes-append n xs ys (omega arith))

slice-append :
    (start n : ℕ) (xs ys : List ℕ)
    → start + n ≤ length xs
    → slice start n (xs ++ ys) ≡ slice start n xs
slice-append zero n xs ys h = take_bytes-append n xs ys (omega arith)
slice-append (suc start) n [] ys h = absurd (omega arith)
slice-append (suc start) n (x ∷ xs) ys h = slice-append start n xs ys (omega arith)

pub take-IsFramed : (field : String) (n : ℕ) → IsFramed (take field n)
unfolding IsFramed take
take-IsFramed field n self p inside h = elim (Bool-cases (ltb (remaining self) n)) [
  | inl short ↦ cc (rw short at h)
  | inr long ↦ at_ok (Framing (take field n) self) (rw long at h) (
    refl,
    ground arith,
    λ extra.
        at_longer extra (ground (arith, length-append self.bytes extra))
          (slice-append self.position n self.bytes extra (ground arith)),
  )
]
  where
    at_longer :
        (extra : List ℕ)
        → ltb (remaining (extend self extra)) n ≡ false
        → slice self.position n (self.bytes ++ extra) ≡ slice self.position n self.bytes
        → take field n (extend self extra)
          ≡ ok (
            slice self.position n self.bytes,
            extend (record self { position = self.position + n }) extra,
          )
    at_longer extra long same = rw (long, same) refl

ruleset framed_parts = (>>=-IsFramed, pure-IsFramed, fail-IsFramed, take-IsFramed)

pub u8-IsFramed : (field : String) → IsFramed (u8 field)
unfolding u8
u8-IsFramed field = search (framed_parts)

pub u16-IsFramed : (field : String) → IsFramed (u16 field)
unfolding u16
u16-IsFramed field = search (framed_parts)

u32-IsFramed : (field : String) → IsFramed (u32 field)
unfolding u32
u32-IsFramed field = search (framed_parts)

pub u64-IsFramed : (field : String) → IsFramed (u64 field)
unfolding u64
u64-IsFramed field = search (framed_parts)

pub i64-IsFramed : (field : String) → IsFramed (i64 field)
unfolding i64
i64-IsFramed field = search (framed_parts)

pub i128-IsFramed : (field : String) → IsFramed (i128 field)
unfolding i128
i128-IsFramed field = search (framed_parts)

pub pubkey-IsFramed : (field : String) → IsFramed (pubkey field)
unfolding pubkey
pubkey-IsFramed field = search (framed_parts)

boolean_of-IsFramed : (field : String) (value : ℕ) → IsFramed (boolean_of field value)
unfolding boolean_of
boolean_of-IsFramed field zero = pure-IsFramed false
boolean_of-IsFramed field (suc zero) = pure-IsFramed true
boolean_of-IsFramed field (suc (suc n)) = fail-IsFramed Bool (invalid_boolean field (suc (suc n)))

text_of-IsFramed : (field : String) (text : Option String) → IsFramed (text_of field text)
unfolding text_of
text_of-IsFramed field none = fail-IsFramed String (invalid_utf8 field)
text_of-IsFramed field (some text) = pure-IsFramed text

within-IsFramed : (field : String) (limit actual : ℕ) → IsFramed (within field limit actual)
unfolding within
within-IsFramed field limit actual = go (ltb limit actual)
  where
    go :
        (b : Bool)
        → IsFramed (if b then fail {A = Unit {0}} (limit_exceeded field limit actual) else pure tt)
    go true = fail-IsFramed Unit (limit_exceeded field limit actual)
    go false = pure-IsFramed tt

pub boolean-IsFramed : (field : String) → IsFramed (boolean field)
unfolding boolean
boolean-IsFramed field = search (framed_parts, u8-IsFramed, boolean_of-IsFramed)

pub read_string-IsFramed : (field : String) (limit : ℕ) → IsFramed (read_string field limit)
unfolding read_string
read_string-IsFramed field limit =
    search (framed_parts, u32-IsFramed, within-IsFramed, text_of-IsFramed) depth 9

shareholder-IsFramed : IsFramed shareholder
unfolding shareholder
shareholder-IsFramed = search (framed_parts, pubkey-IsFramed, u16-IsFramed) depth 9

shareholders_of-IsFramed : (count : ℕ) → IsFramed (shareholders_of count)
unfolding shareholders_of
shareholders_of-IsFramed zero = pure-IsFramed []
shareholders_of-IsFramed (suc count) =
    search (framed_parts, shareholder-IsFramed, shareholders_of-IsFramed count)

pub shareholders-IsFramed : IsFramed shareholders
unfolding shareholders
shareholders-IsFramed =
    search (framed_parts, u32-IsFramed, within-IsFramed, shareholders_of-IsFramed) depth 9

pub ruleset framed_fields = (
  >>=-IsFramed, pure-IsFramed, u8-IsFramed, u16-IsFramed, u64-IsFramed, i64-IsFramed, i128-IsFramed,
  boolean-IsFramed, pubkey-IsFramed, read_string-IsFramed, shareholders-IsFramed,
)
