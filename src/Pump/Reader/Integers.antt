-- ===== src/Pump/Reader/Integers.antt =====
-- The integers of an event, little-endian and in two's complement (crates/source-pump/src/decoder.rs).
use soldisco.Prelude.{
  ℕ, zero, suc, ◌+◌, ◌-◌, ◌/◌, ◌%◌, ◌^◌, ◌<◌, String, List, [], ◌∷◌, ◌++◌, false, ltb, length,
  length-append, ok, ◌≡◌, refl, sym, ◌∙◌, ap, arith,
}
use soldisco.Prelude.Int.{ℤ, pos, negsuc, ◌≤ℤ◌, ◌<ℤ◌}
use soldisco.Pump.Reader.{
  BorshReader, take, take_bytes, slice, remaining, from_le_bytes, as_signed, u64, i64, ◌>>=◌, pure,
  read_on,
}

-- to_le_bytes of an integer of so many bytes.
abbrev pub to_le_bytes : ℕ → ℕ → List ℕ
to_le_bytes zero n = []
to_le_bytes (suc count) n = n % 256 ∷ to_le_bytes count (n / 256)

-- The bits of an integer in w bits of two's complement.
abbrev pub as_unsigned : ℕ → ℤ → ℕ
as_unsigned w (pos n) = n
as_unsigned w (negsuc n) = 2 ^ w - suc n

length-to_le_bytes : (count n : ℕ) → length (to_le_bytes count n) ≡ count
length-to_le_bytes zero n = omega arith
length-to_le_bytes (suc count) n = omega (arith, length-to_le_bytes count (n / 256))

-- A number below 256 to the count, by its quotients.
abbrev Fits : ℕ → ℕ → Type 0
Fits zero n = n ≡ 0
Fits (suc count) n = Fits count (n / 256)

from_le_bytes-to_le_bytes : (count n : ℕ) → Fits count n → from_le_bytes (to_le_bytes count n) ≡ n
from_le_bytes-to_le_bytes zero n h = sym h
from_le_bytes-to_le_bytes (suc count) n h =
    omega (arith, from_le_bytes-to_le_bytes count (n / 256) h)

small-Fits : (n : ℕ) → n < 2 ^ 64 → Fits 8 n
small-Fits n h = omega arith

take_bytes_all : (xs ys : List ℕ) → take_bytes (length xs) (xs ++ ys) ≡ xs
take_bytes_all [] ys = refl
take_bytes_all (x ∷ xs) ys = ap (λ l. x ∷ l) (take_bytes_all xs ys)

slice_at : (front xs ys : List ℕ) → slice (length front) (length xs) (front ++ (xs ++ ys)) ≡ xs
slice_at [] xs ys = take_bytes_all xs ys
slice_at (x ∷ front) xs ys = slice_at front xs ys

-- The reader that has read `front`.
abbrev pub reader_at : List ℕ → List ℕ → BorshReader
reader_at front rest = record { bytes = front ++ rest; position = length front }

take_at :
    (field : String) (front xs rest : List ℕ)
    → take field (length xs) (reader_at front (xs ++ rest))
      ≡ ok (xs, record { bytes = front ++ (xs ++ rest); position = length front + length xs })
unfolding take
take_at field front xs rest = rw (enough, slice_at front xs rest) refl
  where
    enough : ltb (remaining (reader_at front (xs ++ rest))) (length xs) ≡ false
    enough = ground (arith, length-append front (xs ++ rest), length-append xs rest)

-- The reader behind the eight bytes of a number.
abbrev pub after_eight : List ℕ → ℕ → List ℕ → BorshReader
after_eight front n rest = record {
  bytes = front ++ (to_le_bytes 8 n ++ rest);
  position = length front + 8;
}

as_signed-as_unsigned :
    (z : ℤ) → negsuc (2 ^ 63 - 1) ≤ℤ z → z <ℤ pos (2 ^ 63) → as_signed 64 (as_unsigned 64 z) ≡ z
as_signed-as_unsigned (pos n) h k = ground arith
as_signed-as_unsigned (negsuc n) h k = ground arith

as_unsigned-bound : (z : ℤ) → z <ℤ pos (2 ^ 63) → as_unsigned 64 z < 2 ^ 64
as_unsigned-bound (pos n) h = omega arith
as_unsigned-bound (negsuc n) h = omega arith

-- A u64 in little-endian order is read back wherever it stands in an event, and the reader steps over it.
pub u64-to_le_bytes :
    (field : String) (front rest : List ℕ) (n : ℕ)
    → n < 2 ^ 64
    → u64 field (reader_at front (to_le_bytes 8 n ++ rest)) ≡ ok (n, after_eight front n rest)
unfolding u64 ◌>>=◌ pure
u64-to_le_bytes field front rest n h =
    ap (λ o. read_on o (λ taken. pure (from_le_bytes taken)))
      (take_at field front (to_le_bytes 8 n) rest)
    ∙ ap (λ (v : ℕ). ok (v, after_eight front n rest))
        (from_le_bytes-to_le_bytes 8 n (small-Fits n h))

-- An i64 in two's complement and little-endian order is read back likewise.
pub i64-to_le_bytes :
    (field : String) (front rest : List ℕ) (z : ℤ)
    → negsuc (2 ^ 63 - 1) ≤ℤ z
    → z <ℤ pos (2 ^ 63)
    → i64 field (reader_at front (to_le_bytes 8 (as_unsigned 64 z) ++ rest))
      ≡ ok (z, after_eight front (as_unsigned 64 z) rest)
unfolding i64 ◌>>=◌ pure
i64-to_le_bytes field front rest z low high =
    let bits = as_unsigned 64 z in
    ap (λ o. read_on o (λ taken. pure (as_signed 64 (from_le_bytes taken))))
      (take_at field front (to_le_bytes 8 bits) rest)
    ∙ ap (λ (v : ℕ). ok (as_signed 64 v, after_eight front bits rest))
        (from_le_bytes-to_le_bytes 8 bits (small-Fits bits (as_unsigned-bound z high)))
    ∙ ap (λ (v : ℤ). ok (v, after_eight front bits rest)) (as_signed-as_unsigned z low high)
