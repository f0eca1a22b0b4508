-- ===== src/Intake/Lines.antt =====
-- apps/server/src/jobs/intake.rs: the lines of a transaction's log.
use Prim.Native.Char.{Char, code}
use Prim.Native.String.{String}
use text.Mathlib.Text.{◌==◌ as str_eq}
use soldisco.Prelude.{
  ℕ, ◌+◌, ◌-◌, ◌*◌, Option, none, some, Bool, true, false, not, ◌&&◌, ◌||◌, ◌==◌, leb,
  if◌then◌else◌,
}
use soldisco.Prelude.Text.{is_empty_text, strip_text}

-- What a line says, in the order of the tests of the walk over the logs.
pub data LogLine : Type 0 where
  truncation : LogLine
  -- program, depth
  invoke : String → ℕ → LogLine
  -- program, succeeded
  exits : String → Bool → LogLine
  -- the whole log
  program_data : String → LogLine
  other : String → LogLine

abbrev pub is_prefix : String → String → Bool
is_prefix prefix text = elim (strip_text prefix text) [ none ↦ false | some rest ↦ true ]

-- str::split_once, by the separator
unfoldable pub split_once : String → String → Option (String × String)
split_once separator String.[] = elim (strip_text separator String.[]) [
  | none ↦ none
  | some rest ↦ some (String.[], rest)
]
split_once separator (String.◌∷◌ c text) = elim (strip_text separator (String.◌∷◌ c text)) [
  | some rest ↦ some (String.[], rest)
  | none ↦ elim (split_once separator text) [
    | none ↦ none
    | some (before, rest) ↦ some (String.◌∷◌ c before, rest)
  ]
]

-- str::strip_suffix, by the suffix
unfoldable pub strip_suffix : String → String → Option String
strip_suffix suffix String.[] = if str_eq suffix String.[] then some String.[] else none
strip_suffix suffix (String.◌∷◌ c text) =
    let shorter = strip_suffix suffix text in
    if str_eq suffix (String.◌∷◌ c text)
    then some String.[]
    else elim shorter [ none ↦ none | some before ↦ some (String.◌∷◌ c before) ]

abbrev is_digit : Char → Bool
is_digit c = leb 48 (code c) && leb (code c) 57

-- The decimal digits behind a number, while it fits into 64 bits.
abbrev digits_after : ℕ → String → Option ℕ
digits_after n String.[] = some n
digits_after n (String.◌∷◌ c text) =
    elim (is_digit c && leb (n * 10 + (code c - 48)) 18446744073709551615) [
      | true ↦ digits_after (n * 10 + (code c - 48)) text
      | false ↦ none
    ]

abbrev unsigned_of : String → Option ℕ
unsigned_of String.[] = none
unsigned_of (String.◌∷◌ c text) = digits_after 0 (String.◌∷◌ c text)

-- str::parse::<usize>
unfoldable pub parse_usize : String → Option ℕ
parse_usize String.[] = none
parse_usize (String.◌∷◌ c text) =
    if code c == 43 then unsigned_of text else unsigned_of (String.◌∷◌ c text)

abbrev is_ascii_whitespace : Char → Bool
is_ascii_whitespace c = code c == 32 || code c == 9 || code c == 10 || code c == 12 || code c == 13

abbrev has_whitespace : String → Bool
has_whitespace String.[] = false
has_whitespace (String.◌∷◌ c text) = is_ascii_whitespace c || has_whitespace text

unfoldable pub is_plausible_program_id : String → Bool
is_plausible_program_id program_id =
    not (is_empty_text program_id) && not (has_whitespace program_id)

unfoldable pub is_log_truncation_marker : String → Bool
is_log_truncation_marker log = str_eq log "Log truncated" || is_prefix "Log truncated: " log

abbrev invoke_of : String × String → Option (String × ℕ)
invoke_of (program_id, depth) =
    if is_plausible_program_id program_id
    then (elim (strip_suffix "]" depth) [
      | none ↦ none
      | some digits ↦ elim (parse_usize digits) [ none ↦ none | some n ↦ some (program_id, n) ]
    ])
    else none

unfoldable pub parse_invoke : String → Option (String × ℕ)
parse_invoke log = elim (strip_text "Program " log) [
  | none ↦ none
  | some suffix ↦ elim (split_once " invoke [" suffix) [
    | none ↦ none
    | some parts ↦ invoke_of parts
  ]
]

abbrev exit_of : String → Option (String × Bool)
exit_of suffix = elim (strip_suffix " success" suffix) [
  | some program_id ↦ some (program_id, true)
  | none ↦ elim (split_once " failed:" suffix) [ none ↦ none | some parts ↦ some (parts.0, false) ]
]

abbrev plausible_exit : Option (String × Bool) → Option (String × Bool)
plausible_exit none = none
plausible_exit (some exit) = if is_plausible_program_id exit.0 then some exit else none

unfoldable pub parse_exit : String → Option (String × Bool)
parse_exit log = elim (strip_text "Program " log) [
  | none ↦ none
  | some suffix ↦ plausible_exit (exit_of suffix)
]

-- The tests of a log, in the order in which the walk makes them.
unfoldable pub line_of : String → LogLine
line_of log = if is_log_truncation_marker log then truncation else elim (parse_invoke log) [
  | some (program_id, depth) ↦ invoke program_id depth
  | none ↦ elim (parse_exit log) [
    | some (program_id, succeeded) ↦ exits program_id succeeded
    | none ↦ if is_prefix "Program data: " log then program_data log else other log
  ]
]
