-- ===== src/Prelude/Text.antt =====
-- Tests on texts: blank, which is `text.trim().is_empty()` (every character is Unicode white space), empty,
-- and a prefix.
use Prim.Native.Nat.{ℕ}
use Prim.Native.Char.{code}
use Prim.Native.String.{String}
use mathlib.Core.Bool.{Bool, true, false, ◌&&◌, ◌||◌}
use mathlib.Core.Option.{Option, none, some}
use soldisco.Prelude.Tests.{leb, ◌==◌, if◌then◌else◌}

abbrev pub is_whitespace : ℕ → Bool
is_whitespace c =
    leb 9 c && leb c 13
    || c == 32
    || c == 0x85
    || c == 0xa0
    || c == 0x1680
    || leb 0x2000 c && leb c 0x200a
    || c == 0x2028
    || c == 0x2029
    || c == 0x202f
    || c == 0x205f
    || c == 0x3000

unfoldable pub is_blank : String → Bool
is_blank String.[] = true
is_blank (String.◌∷◌ c rest) = is_whitespace (code c) && is_blank rest

-- str::is_empty
abbrev pub is_empty_text : String → Bool
is_empty_text String.[] = true
is_empty_text (String.◌∷◌ c rest) = false

-- str::strip_prefix, by the prefix
abbrev pub strip_text : String → String → Option String
strip_text String.[] text = some text
strip_text (String.◌∷◌ c prefix) String.[] = none
strip_text (String.◌∷◌ c prefix) (String.◌∷◌ d text) =
    let rest = strip_text prefix text in if code c == code d then rest else none
