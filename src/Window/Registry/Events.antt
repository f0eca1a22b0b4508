-- ===== src/Window/Registry/Events.antt =====
-- crates/discovery-engine/src/lib.rs: matching and admitting received events, source progress and
-- coverage gaps.
pub mod Coverage
use soldisco.Prelude.{
  ℕ, suc, Option, none, some, List, [], ◌∷◌, map, ◌++◌, Bool, true, false, not, ◌&&◌, if◌then◌else◌,
  length,
}
use soldisco.Prelude.Int.{ℤ, leb_ℤ, ltb_ℤ}
use soldisco.Domain.{SourceProgram}
use soldisco.Window.Target.{
  ObservationTarget, target_source_program, WindowIncompleteReason, queue_overflow,
}
use soldisco.Window.Cells.{Cells, is_open_at, covers, mark_admitted, mark_incomplete}
use soldisco.Window.Registry.{
  Token, SourceCoverageGap, Registry, write, source_eq, find_window, rotate_closed_windows,
}

abbrev open_token : (ℕ → Cells) → ℤ → Option Token → Option Token
open_token heap now none = none
open_token heap now (some token) =
    if is_open_at token.window (heap token.cell) now then some token else none

unfoldable pub matching_token : Registry → ObservationTarget → ℤ → Option Token
matching_token r target observed_at = open_token r.heap observed_at (find_window target r.windows)

-- Admission of a matched token; a token that refuses is marked incomplete. Both operations of `mark_admitted`
-- meet the same cells: finalization alone could matter in between, and it is of retained windows, which no
-- longer are among the active ones that are matched here.
unfoldable pub admit_token : Registry → Option Token → Registry × Option Token
admit_token r none = (r, none)
admit_token r (some token) =
    let (admitted, accepted) = mark_admitted (r.heap token.cell) (r.heap token.cell) in
    if accepted then (record r { heap = write r.heap token.cell admitted }, some token) else (
      record r {
        heap = write r.heap token.cell (mark_incomplete (r.heap token.cell) queue_overflow).0;
      },
      none,
    )

unfoldable pub admit_matching_token : Registry → ObservationTarget → ℤ → Registry × Option Token
unfolding admit_token matching_token
admit_matching_token r target observed_at = admit_token r (matching_token r target observed_at)

abbrev is_found : Option Token → Bool
is_found none = false
is_found (some token) = true

unfoldable pub is_active : Registry → ObservationTarget → ℤ → Bool
unfolding matching_token
is_active r target now = is_found (matching_token r target now)

unfoldable pub active_count : Registry → ℤ → Registry × ℕ
active_count r now = let rotated = rotate_closed_windows r now in (rotated, length rotated.windows)

abbrev pub latest_of : Option ℤ → ℤ → ℤ
latest_of none observed_at = observed_at
latest_of (some latest) observed_at = if ltb_ℤ latest observed_at then observed_at else latest

unfoldable pub record_source_progress : Registry → SourceProgram → ℤ → Registry
record_source_progress r source observed_at = record r {
  latest_source_progress = λ other.
      if source_eq other source
      then some (latest_of (r.latest_source_progress source) observed_at)
      else r.latest_source_progress other;
}

abbrev pub latest_gap : Option SourceCoverageGap → ℤ → WindowIncompleteReason → SourceCoverageGap
latest_gap none observed_at reason = record { observed_at_unix_ms = observed_at; reason = reason }
latest_gap (some latest) observed_at reason =
    if ltb_ℤ latest.observed_at_unix_ms observed_at
    then record { observed_at_unix_ms = observed_at; reason = reason }
    else latest

-- The filter on the tokens that a gap reaches.
abbrev pub gap_reaches : (ℕ → Cells) → SourceProgram → ℤ → Token → Bool
gap_reaches heap source observed_at token =
    source_eq (target_source_program token.window.target) source
    && not (heap token.cell).finalized
    && covers token.window observed_at

-- Marking each token that the gap reaches, and counting those that were complete.
unfoldable pub mark_gap :
    SourceProgram → ℤ → WindowIncompleteReason → (ℕ → Cells) → ℕ → List Token → (ℕ → Cells) × ℕ
mark_gap source observed_at reason heap count [] = (heap, count)
mark_gap source observed_at reason heap count (token ∷ rest) =
    let reached = gap_reaches heap source observed_at token in
    let marked = mark_incomplete (heap token.cell) reason in
    mark_gap source observed_at reason (if reached then write heap token.cell marked.0 else heap)
      (if reached && marked.1 then suc count else count) rest

unfoldable pub record_source_coverage_gap :
    Registry → SourceProgram → ℤ → WindowIncompleteReason → Registry × ℕ
unfolding mark_gap
record_source_coverage_gap r source observed_at reason =
    let (heap, count) =
      mark_gap source observed_at reason r.heap 0 (map (λ e. e.1) r.windows ++ r.retained) in
    (
      record r {
        latest_source_coverage_gap = λ other.
            if source_eq other source
            then some (latest_gap (r.latest_source_coverage_gap source) observed_at reason)
            else r.latest_source_coverage_gap other;
        heap = heap;
      },
      count,
    )
