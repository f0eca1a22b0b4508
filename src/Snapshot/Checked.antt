-- ===== src/Snapshot/Checked.antt =====
-- crates/discovery-engine/src/snapshot.rs: the errors of a snapshot, and checked arithmetic. A
-- width w stands for the unsigned integer type of w bits.
use soldisco.Prelude.{ℕ, ◌+◌, ◌*◌, ◌^◌, ◌<◌, ◌≡◌, Result, ok, err, ltb, if◌then◌else◌, arith}
use soldisco.Domain.{ObservationKey}

pub data SnapshotError : Type 0 where
  invalid_window_bounds missing_incomplete_reason zero_trade_amount : SnapshotError
  duplicate_observation : ObservationKey → SnapshotError
  empty_wallet arithmetic_overflow : SnapshotError

abbrev pub Checked {ℓ} : Type ℓ → Type ℓ
Checked A = Result SnapshotError A

abbrev pub u64_width : ℕ
u64_width = 64

abbrev pub u128_width : ℕ
u128_width = 128

unfoldable pub checked_add : ℕ → ℕ → ℕ → Checked ℕ
checked_add w left right =
    if ltb (left + right) (2 ^ w) then ok (left + right) else err arithmetic_overflow

-- `left.checked_mul(right).ok_or(ArithmeticOverflow)`, which the source writes out at u128
unfoldable pub checked_mul : ℕ → ℕ → Checked ℕ
checked_mul left right =
    if ltb (left * right) (2 ^ u128_width) then ok (left * right) else err arithmetic_overflow

pub checked_add-eq-ok : (w a b : ℕ) → a + b < 2 ^ w → checked_add w a b ≡ ok (a + b)
unfolding checked_add
checked_add-eq-ok w a b h = ground arith

pub checked_mul-eq-ok : (a b : ℕ) → a * b < 2 ^ u128_width → checked_mul a b ≡ ok (a * b)
unfolding checked_mul
checked_mul-eq-ok a b h = ground arith

pub checked_add_value : (w a b : ℕ) {c : ℕ} → checked_add w a b ≡ ok c → (c ≡ a + b) × (c < 2 ^ w)
unfolding checked_add
checked_add_value w a b h = ground arith

pub checked_mul_value :
    (a b : ℕ) {c : ℕ} → checked_mul a b ≡ ok c → (c ≡ a * b) × (c < 2 ^ u128_width)
unfolding checked_mul
checked_mul_value a b h = ground arith
