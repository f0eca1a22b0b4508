-- ===== src/Intake/Classify.antt =====
-- apps/server/src/jobs/intake.rs: `classify_notification`. The registry of windows that its calls change is
-- passed along; the debug log of a coverage gap is left out.
pub mod Malformed
use text.Mathlib.Text.{◌==◌ as str_eq}
use soldisco.Prelude.{
  ℕ, ◌+◌, String, Option, none, some, List, [], ◌∷◌, ◌++◌, Bool, true, false, not, ◌&&◌, ◌||◌, any,
  Result, ok, err, if◌then◌else◌,
}
use soldisco.Prelude.Int.{ℤ}
use soldisco.Domain.{Network}
use soldisco.Pump.{
  PumpProgram, pump, pump_swap, program_id, source_program, is_pinned_event_discriminator,
}
use soldisco.Pump.Model.{PumpEvent, DecodedPumpEvent}
use soldisco.Pump.Reader.{DecodeError, unknown_discriminator}
use soldisco.Pump.Decode.{decode_program_data_log}
use soldisco.Window.Target.{
  ObservationTarget, target_eq, WindowIncompleteReason, decode_gap,
  cpi_instruction_data_unavailable,
}
use soldisco.Window.Registry.{Registry, Token}
use soldisco.Window.Registry.Events.{record_source_coverage_gap, admit_matching_token}
use soldisco.Intake.Lines.{parse_invoke}
use soldisco.Intake.Scope.{ScopedProgramData, LogScopeError, scope_program_data_logs}
use soldisco.Intake.SelfCpi.{
  DirectEventCoverage, SelfCpiCoverage, no_direct_events, entry_of, assign_entry, or_default,
  successful_self_cpi_coverage, event_cpi_coverage_is_incomplete,
}
use soldisco.Intake.Targets.{
  IntakeDropReason, failed_transaction, irrelevant, malformed_logs, stale_discovery, DiscoverySeed,
  discovery_seed, discovery_event_is_fresh, event_tracking_target,
}

pub record ProgramLogNotification : Type 0 where
  pub subscription_id : ℕ  -- u64
  pub slot : ℕ  -- u64
  pub signature : String
  pub log_messages : List String
  pub transaction_error : Option String

pub data NotificationDisposition : Type 0 where
  fetch_discovery : List DiscoverySeed → List Token → NotificationDisposition
  collect_tracked_activity : List Token → NotificationDisposition
  drops : IntakeDropReason → NotificationDisposition

-- What the loop over the programs has found, and the registry.
pub record Findings : Type 0 where
  pub windows : Registry
  pub discoveries : List DiscoverySeed
  pub tracked_windows : List Token
  pub stale : Bool
  pub malformed : Bool

abbrev mentions : String → Option (String × ℕ) → Bool
mentions program none = false
mentions program (some invoked) = str_eq invoked.0 program

unfoldable pub notification_mentions_program : String → List String → Bool
notification_mentions_program program logs = any (λ log. mentions program (parse_invoke log)) logs

-- The direct events of a program, decoded, with their coverage.
pub record DirectEvents : Type 0 where
  pub direct_coverage : List (ℕ × DirectEventCoverage)
  pub decoded_events : List DecodedPumpEvent
  pub has_decode_gap : Bool

abbrev eligible : ℕ → DirectEvents → DirectEvents
eligible i self =
    let c = or_default (entry_of i self.direct_coverage) no_direct_events in
    record self {
      direct_coverage =
          assign_entry i (record c { eligible_events = c.eligible_events + 1 })
            self.direct_coverage;
    }

abbrev undecoded : ℕ → DirectEvents → DirectEvents
undecoded i self =
    let c = or_default (entry_of i self.direct_coverage) no_direct_events in
    record self {
      direct_coverage = assign_entry i (record c { invalid_event = true }) self.direct_coverage;
      has_decode_gap = true;
    }

-- The match on the result of decoding a record.
abbrev pub count_decoded : ℕ → DirectEvents → Result DecodeError DecodedPumpEvent → DirectEvents
count_decoded i self (ok decoded) =
    let counted = eligible i self in
    record counted { decoded_events = self.decoded_events ++ (decoded ∷ []) }
count_decoded i self (err (unknown_discriminator program discriminator)) =
    if is_pinned_event_discriminator program discriminator
    then eligible i self
    else undecoded i self
count_decoded i self (err error) = undecoded i self

abbrev has_target : ObservationTarget → List DiscoverySeed → Bool
has_target target seeds = any (λ (s : DiscoverySeed). target_eq s.target target) seeds

abbrev is_tracked : ObservationTarget → List Token → Bool
is_tracked target tokens = any (λ (t : Token). target_eq t.window.target target) tokens

abbrev add_token : Findings → Registry × Option Token → Findings
add_token self (windows, none) = record self { windows = windows }
add_token self (windows, some token) = record self {
  windows = windows;
  tracked_windows = self.tracked_windows ++ (token ∷ []);
}

abbrev track : Findings → Option ObservationTarget → ℤ → Findings
track self none observed_at = self
track self (some target) observed_at =
    if is_tracked target self.tracked_windows
    then self
    else add_token self (admit_matching_token self.windows target observed_at)

abbrev discover : Findings → DiscoverySeed → Bool → Findings
discover self seed false = record self { stale = true }
discover self seed true =
    if has_target seed.target self.discoveries
    then self
    else record self { discoveries = self.discoveries ++ (seed ∷ []) }

-- The disposition, by the discoveries, the tracked windows and the two flags.
abbrev dispose : List DiscoverySeed → List Token → Bool → Bool → NotificationDisposition
dispose (seed ∷ seeds) tokens stale malformed = fetch_discovery (seed ∷ seeds) tokens
dispose [] (token ∷ tokens) stale malformed = collect_tracked_activity (token ∷ tokens)
dispose [] [] true malformed = drops stale_discovery
dispose [] [] false true = drops malformed_logs
dispose [] [] false false = drops irrelevant

abbrev pub no_findings : Registry → Findings
no_findings windows = record {
  windows = windows;
  discoveries = [];
  tracked_windows = [];
  stale = false;
  malformed = false;
}

-- Not `succeeded`.
abbrev has_error : Option String → Bool
has_error none = false
has_error (some error) = true

module _ (network : Network) (maximum_discovery_age : ℕ) (observed_at now_unix_ms : ℤ) where
  -- The loop over the decoded events.
  unfoldable pub follow_events : Findings → List DecodedPumpEvent → Findings
  follow_events self [] = self
  follow_events self (decoded ∷ events) = elim (discovery_seed decoded.event network) [
    | some seed ↦
        follow_events
          (discover self seed
            (discovery_event_is_fresh decoded.event now_unix_ms maximum_discovery_age))
          events
    | none ↦ follow_events (track self (event_tracking_target decoded.event) observed_at) events
  ]

  -- The source's windows that cover the time cannot be complete.
  abbrev pub gap_of : PumpProgram → Findings → WindowIncompleteReason → Findings
  gap_of program self reason = record self {
    windows =
        (record_source_coverage_gap self.windows (source_program program) observed_at reason).0;
  }

  module _ (base64_decode : String → Option (List ℕ)) where
    unfoldable pub decode_records :
        PumpProgram → DirectEvents → List ScopedProgramData → DirectEvents
    decode_records program self [] = self
    decode_records program self (r ∷ records) =
        decode_records program
          (count_decoded r.coordinate.instruction_index self
            (decode_program_data_log base64_decode (program_id program) r.coordinate r.log))
          records

    abbrev examine_events :
        PumpProgram → Findings → List (ℕ × SelfCpiCoverage) → DirectEvents → Findings
    examine_events program self coverage events =
        follow_events
          (if events.has_decode_gap
            then gap_of program (record self { malformed = true }) decode_gap
            else if event_cpi_coverage_is_incomplete coverage events.direct_coverage
            then gap_of program self cpi_instruction_data_unavailable
            else self)
          events.decoded_events

    -- Either walk over the logs may fail.
    abbrev pub examine_walks :
        PumpProgram
        → Findings
        → Result LogScopeError (List (ℕ × SelfCpiCoverage))
        → Result LogScopeError (List ScopedProgramData)
        → Findings
    examine_walks program self (err error) scoped =
        gap_of program (record self { malformed = true }) decode_gap
    examine_walks program self (ok coverage) (err error) =
        gap_of program (record self { malformed = true }) decode_gap
    examine_walks program self (ok coverage) (ok scoped) = examine_events program self coverage (
        decode_records program
          (record { direct_coverage = []; decoded_events = []; has_decode_gap = false }) scoped)

    -- One turn of the loop over the programs.
    unfoldable pub examine_program : ProgramLogNotification → Findings → PumpProgram → Findings
    examine_program notification self program =
        if notification_mentions_program (program_id program) notification.log_messages
        then examine_walks program self
            (successful_self_cpi_coverage (program_id program) notification.log_messages)
            (scope_program_data_logs (program_id program) notification.slot none
              notification.signature notification.log_messages)
        else self

    unfoldable pub classify_notification :
        ProgramLogNotification → Registry → Registry × NotificationDisposition
    classify_notification notification windows =
        if has_error notification.transaction_error
        then (windows, drops failed_transaction)
        else let found =
            examine_program notification (examine_program notification (no_findings windows) pump)
              pump_swap in
          (
            found.windows,
            dispose found.discoveries found.tracked_windows found.stale found.malformed,
          )
