-- ===== src/Prelude/Results.antt =====
-- Rust's Result, with its `?` operator as the bind of a do block.
use mathlib.Core.Path.{◌≡◌, refl, subst}
use mathlib.Core.Logic.{◌⊎◌, inl, inr}
use mathlib.Core.Bool.{Bool, true, false}
use mathlib.Core.Option.{Option, none, some}

pub data Result {ℓ κ} (E : Type ℓ) (A : Type κ) : Type (ℓ ⊔ κ) where
  ok : A → Result E A
  err : E → Result E A

-- Option::ok_or
abbrev pub ok_or {ℓ κ} : {E : Type ℓ} {A : Type κ} → Option A → E → Result E A
ok_or (some a) e = ok a
ok_or none e = err e

module _ {ℓ} {E : Type ℓ} where
  -- An early `return Err(e)` under a test.
  abbrev pub reject_if : Bool → E → Result E (Unit {0})
  reject_if false error = ok tt
  reject_if true error = err error

  infixl 5 ◌>>=◌
  abbrev pub ◌>>=◌ {κ ι} : {A : Type κ} {B : Type ι} → Result E A → (A → Result E B) → Result E B
  err error >>= next = err error
  ok value >>= next = next value

  infixl 5 ◌>>◌
  abbrev pub ◌>>◌ {ι} : {B : Type ι} → Result E (Unit {0}) → Result E B → Result E B
  err error >> next = err error
  ok done >> next = next

  -- Inversion of a successful bind.
  pub >>=-eq-ok {κ ι} :
      {A : Type κ} {B : Type ι} (m : Result E A) (next : A → Result E B) {b : B}
      → (m >>= next) ≡ ok b
      → (a : A) × (m ≡ ok a) × (next a ≡ ok b)
  >>=-eq-ok (ok value) next h = (value, refl, h)
  >>=-eq-ok (err error) next h = cc

  -- Inversion of a passed early return, and of a step without a value.
  pub reject_if-eq-ok {ι} :
      {B : Type ι} (b : Bool) (error : E) (next : Result E B) {a : B}
      → (reject_if b error >> next) ≡ ok a
      → (b ≡ false) × (next ≡ ok a)
  reject_if-eq-ok true error next h = cc
  reject_if-eq-ok false error next h = (refl, h)

  pub >>-eq-ok {ι} :
      {B : Type ι} (m : Result E (Unit {0})) (next : Result E B) {b : B}
      → (m >> next) ≡ ok b
      → (m ≡ ok tt) × (next ≡ ok b)
  >>-eq-ok (ok done) next h = (refl, h)
  >>-eq-ok (err error) next h = cc

  -- What holds of a result holds of the one that it equals.
  pub at_ok {κ ι} :
      {A : Type κ} (P : A → Type ι) {a b : A} → Path (Result E A) (ok a) (ok b) → P a → P b
  at_ok P {a} {b} h p = let same : a ≡ b = cc in subst P same p

  pub Result-cases {κ} :
      {A : Type κ} (m : Result E A) → ((a : A) × (m ≡ ok a)) ⊎ ((error : E) × (m ≡ err error))
  Result-cases (ok a) = inl (a, refl)
  Result-cases (err error) = inr (error, refl)
