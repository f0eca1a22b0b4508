-- ===== src/Prelude/Utf8.antt =====
-- String::from_utf8 of Rust's standard library: one byte at a time, with what the bytes before it left open.
use Prim.Native.Nat.{ℕ, zero, suc, ◌+◌, ◌-◌, ◌*◌, Ordering, compare}
use Prim.Native.Char.{Char, char}
use Prim.Native.String.{String}
use mathlib.Core.Path.{◌≡◌, refl}
use mathlib.Core.Bool.{◌&&◌}
use mathlib.Core.Option.{Option, none, some}
use mathlib.Core.List.{List, [], ◌∷◌}
use soldisco.Prelude.Tests.{leb, if◌then◌else◌, ◌==◌}

-- By the code point's order to the bounds of the scalar values.
abbrev char_of_orders :
    (n : ℕ) (low high end : Ordering)
    → compare n 55296 ≡ low
    → compare 57343 n ≡ high
    → compare n 1114112 ≡ end
    → Option Char
char_of_orders n Ordering.lt high end l h e = some (char n (rw l tt))
char_of_orders n Ordering.eq Ordering.lt Ordering.lt l h e = some (char n (rw (l, h, e) tt))
char_of_orders n Ordering.gt Ordering.lt Ordering.lt l h e = some (char n (rw (l, h, e) tt))
char_of_orders n low high end l h e = none

abbrev char_of : ℕ → Option Char
char_of n = char_of_orders n (compare n 55296) (compare 57343 n) (compare n 1114112) refl refl refl

-- The bytes that the current character still misses, its bits so far, and the range of the next byte.
record Partial : Type 0 where
  missing : ℕ
  bits : ℕ
  lowest : ℕ
  highest : ℕ

abbrev start : Partial
start = record { missing = 0; bits = 0; lowest = 0x80; highest = 0xBF }

abbrev begins : ℕ → ℕ → ℕ → ℕ → Option (Partial × Option Char)
begins missing bits lowest highest =
    some (record { missing = missing; bits = bits; lowest = lowest; highest = highest }, none)

-- The first byte of a character.
abbrev first_byte : ℕ → Option (Partial × Option Char)
first_byte b =
    if leb b 0x7F
    then (elim (char_of b) [ none ↦ none | some c ↦ some (start, some c) ])
    else if leb 0xC2 b && leb b 0xDF
    then begins 1 (b - 0xC0) 0x80 0xBF
    else if b == 0xE0
    then begins 2 0 0xA0 0xBF
    else if b == 0xED
    then begins 2 0xD 0x80 0x9F
    else if leb 0xE1 b && leb b 0xEF
    then begins 2 (b - 0xE0) 0x80 0xBF
    else if b == 0xF0
    then begins 3 0 0x90 0xBF
    else if leb 0xF1 b && leb b 0xF3
    then begins 3 (b - 0xF0) 0x80 0xBF
    else if b == 0xF4
    then begins 3 4 0x80 0x8F
    else none

abbrev continued : ℕ → ℕ → Option (Partial × Option Char)
continued zero bits = none
continued (suc zero) bits = elim (char_of bits) [ none ↦ none | some c ↦ some (start, some c) ]
continued (suc (suc missing)) bits = begins (suc missing) bits 0x80 0xBF

abbrev next_byte : Partial → ℕ → Option (Partial × Option Char)
next_byte state b =
    if state.missing == 0
    then first_byte b
    else if leb state.lowest b && leb b state.highest
    then continued state.missing (state.bits * 64 + (b - 0x80))
    else none

abbrev put : Option Char → Option String → Option String
put none rest = rest
put c none = none
put (some c) (some rest) = some (String.◌∷◌ c rest)

decode_rest : Partial → List ℕ → Option String
decode_rest state [] = if state.missing == 0 then some String.[] else none
decode_rest state (b ∷ bytes) = elim (next_byte state b) [
  | none ↦ none
  | some (after, c) ↦ put c (decode_rest after bytes)
]

unfoldable pub from_utf8 : List ℕ → Option String
unfolding decode_rest
from_utf8 bytes = decode_rest start bytes
