-- ===== src/Intake/SelfCpi.antt =====
-- apps/server/src/jobs/intake.rs: `successful_self_cpi_coverage` and the comparison of its outcome with the
-- direct events. A BTreeMap over instructions is an association list with one entry for each key.
use text.Mathlib.Text.{◌==◌ as str_eq}
use soldisco.Prelude.{
  ℕ, ◌+◌, String, Option, none, some, List, [], ◌∷◌, Bool, true, false, not, ◌&&◌, ◌||◌, ◌==◌, ltb,
  any, length, map, Result, ok, err, ◌>>=◌, ◌>>◌, reject_if, if◌then◌else◌,
}
use soldisco.Prelude.Text.{strip_text}
use soldisco.Intake.Lines.{
  LogLine, truncation, invoke, exits, program_data, other, line_of, is_prefix, strip_suffix,
}
use soldisco.Intake.Scope.{
  LogScopeError, truncated_logs, invalid_invocation_depth, unclosed_invocations,
  too_many_instructions, too_many_events, unexpected_program_exit,
}

pub record DirectEventCoverage : Type 0 where
  pub eligible_events : ℕ  -- u16
  pub invalid_event : Bool

pub record SelfCpiCoverage : Type 0 where
  pub successful_event_calls : ℕ  -- u16
  pub pending_direct_event : Bool
  pub pairing_gap : Bool

pub record InvocationFrame : Type 0 where
  pub program_id : String
  pub instruction_index : ℕ  -- u16
  pub is_target_self_cpi : Bool
  pub silent_candidate : Bool
  pub candidate_for_pending_event : Bool

abbrev pub no_direct_events : DirectEventCoverage
no_direct_events = record { eligible_events = 0; invalid_event = false }

abbrev pub no_self_cpi : SelfCpiCoverage
no_self_cpi = record {
  successful_event_calls = 0;
  pending_direct_event = false;
  pairing_gap = false;
}

module _ {C : Type 0} where
  -- BTreeMap::get
  abbrev pub entry_of : ℕ → List (ℕ × C) → Option C
  entry_of i [] = none
  entry_of i ((j, c) ∷ rest) = let later = entry_of i rest in if j == i then some c else later

  -- entry(i).or_default(), with what is then assigned through it
  abbrev pub assign_entry : ℕ → C → List (ℕ × C) → List (ℕ × C)
  assign_entry i c [] = (i, c) ∷ []
  assign_entry i c ((j, d) ∷ rest) =
      let later = assign_entry i c rest in if j == i then (i, c) ∷ rest else (j, d) ∷ later

  abbrev pub or_default : Option C → C → C
  or_default none default = default
  or_default (some c) default = c

abbrev Coverage : Type 0
Coverage = List (ℕ × SelfCpiCoverage)

abbrev coverage_at : ℕ → Coverage → SelfCpiCoverage
coverage_at i coverage = or_default (entry_of i coverage) no_self_cpi

unfoldable pub is_compute_consumed_log : String → String → Bool
is_compute_consumed_log program_id log = elim (strip_text "Program " log) [
  | none ↦ false
  | some suffix ↦ elim (strip_text program_id suffix) [
    | none ↦ false
    | some rest ↦
        is_prefix " consumed " rest
        && (elim (strip_suffix " compute units" rest) [ none ↦ false | some before ↦ true ])
  ]
]

-- The direct event that waits for its call is not paired.
abbrev unpaired : SelfCpiCoverage → SelfCpiCoverage
unpaired c = record c { pairing_gap = true; pending_direct_event = false }

abbrev loud : InvocationFrame → InvocationFrame
loud frame = record frame { silent_candidate = false }

abbrev quiet_parent : List InvocationFrame → List InvocationFrame
quiet_parent [] = []
quiet_parent (parent ∷ frames) =
    (if parent.is_target_self_cpi then loud parent else parent) ∷ frames

abbrev top_frames : List InvocationFrame → List InvocationFrame
top_frames [] = []
top_frames (frame ∷ frames) = frames

-- The instruction of an invocation and the next instruction: depth one begins a new one.
abbrev instruction_of : List InvocationFrame → ℕ → Result LogScopeError (ℕ × ℕ)
instruction_of [] next =
    reject_if (not (ltb next 65535)) (too_many_instructions 65535) >> ok (next, next + 1)
instruction_of (frame ∷ frames) next = ok (frame.instruction_index, next)

module _ (program_id : String) where
  -- The frame is a direct invocation of the program, not its call of itself.
  abbrev is_direct : InvocationFrame → Bool
  is_direct frame = str_eq frame.program_id program_id && not frame.is_target_self_cpi

  abbrev is_candidate : List InvocationFrame → Bool → ℕ → Coverage → Bool
  is_candidate [] is_target_self_cpi i coverage = false
  is_candidate (parent ∷ frames) is_target_self_cpi i coverage =
      is_direct parent
      && is_target_self_cpi
      && (elim (entry_of i coverage) [ none ↦ false | some entry ↦ entry.pending_direct_event ])

  -- What an invocation by the program itself does to an event that waits.
  abbrev invoked_coverage : List InvocationFrame → Bool → ℕ → Coverage → Coverage
  invoked_coverage [] candidate i coverage = coverage
  invoked_coverage (parent ∷ frames) candidate i coverage =
      let c = coverage_at i coverage in
      if is_direct parent
      then assign_entry i (if c.pending_direct_event && not candidate then unpaired c else c)
          coverage
      else coverage

  -- A call of the program by itself returns.
  abbrev returned_call :
      InvocationFrame → Bool → SelfCpiCoverage → Result LogScopeError SelfCpiCoverage
  returned_call frame succeeded c =
      if frame.candidate_for_pending_event
      then (if succeeded && frame.silent_candidate && c.pending_direct_event
          then reject_if (not (ltb c.successful_event_calls 65535)) (too_many_events 65535)
            >> ok (record c {
              successful_event_calls = c.successful_event_calls + 1;
              pending_direct_event = false;
            })
          else ok (unpaired c))
      else ok (if succeeded && frame.silent_candidate then record c { pairing_gap = true } else c)

  abbrev returned : InvocationFrame → Bool → SelfCpiCoverage → Result LogScopeError SelfCpiCoverage
  returned frame succeeded c =
      if frame.is_target_self_cpi
      then returned_call frame succeeded c
      else ok
          (if str_eq frame.program_id program_id && c.pending_direct_event then unpaired c else c)

  abbrev is_active_frame : List InvocationFrame → String → Bool
  is_active_frame [] program = false
  is_active_frame (frame ∷ frames) program = str_eq frame.program_id program

  abbrev returned_coverage : List InvocationFrame → Bool → Coverage → Result LogScopeError Coverage
  returned_coverage [] succeeded coverage = ok coverage
  returned_coverage (frame ∷ frames) succeeded coverage = do
    after ← returned frame succeeded (coverage_at frame.instruction_index coverage)
    ok (assign_entry frame.instruction_index after coverage)

  -- A data log or another log makes a call of the program by itself no silent one.
  abbrev heard : Bool → List InvocationFrame → List InvocationFrame
  heard loudly [] = []
  heard loudly (frame ∷ frames) =
      (if frame.is_target_self_cpi && loudly then loud frame else frame) ∷ frames

  abbrev data_coverage : List InvocationFrame → Coverage → Coverage
  data_coverage [] coverage = coverage
  data_coverage (frame ∷ frames) coverage =
      let c = coverage_at frame.instruction_index coverage in
      if is_direct frame
      then assign_entry frame.instruction_index
          (record c {
            pairing_gap = c.pairing_gap || c.pending_direct_event;
            pending_direct_event = true;
          })
          coverage
      else coverage

  unfoldable pub is_consumed : List InvocationFrame → String → Bool
  is_consumed [] log = false
  is_consumed (frame ∷ frames) log = is_compute_consumed_log frame.program_id log

  abbrev other_coverage : List InvocationFrame → Bool → Coverage → Coverage
  other_coverage [] consumed coverage = coverage
  other_coverage (frame ∷ frames) consumed coverage =
      let c = coverage_at frame.instruction_index coverage in
      if is_direct frame
      then assign_entry frame.instruction_index
          (if c.pending_direct_event && not consumed then unpaired c else c) coverage
      else coverage

  -- The loop over the lines.
  unfoldable pub cover :
      List InvocationFrame → ℕ → Coverage → List LogLine → Result LogScopeError Coverage
  cover frames next coverage [] =
      reject_if (not (length frames == 0)) (unclosed_invocations (length frames)) >> ok coverage
  cover frames next coverage (truncation ∷ lines) = err truncated_logs
  cover frames next coverage (invoke program depth ∷ lines) = do
    reject_if (not (depth == length frames + 1)) (invalid_invocation_depth depth)
    (i, after) ← instruction_of frames next
    let is_target_self_cpi =
        str_eq program program_id
        && any (λ (f : InvocationFrame). str_eq f.program_id program_id) frames
    let candidate = is_candidate frames is_target_self_cpi i coverage
    cover
        (record {
          program_id = program;
          instruction_index = i;
          is_target_self_cpi = is_target_self_cpi;
          silent_candidate = is_target_self_cpi;
          candidate_for_pending_event = candidate;
        }
          ∷ quiet_parent frames)
        after (invoked_coverage frames candidate i coverage) lines
  cover frames next coverage (exits program succeeded ∷ lines) = do
    reject_if (not (is_active_frame frames program)) (unexpected_program_exit program)
    after ← returned_coverage frames succeeded coverage
    cover (top_frames frames) next after lines
  cover frames next coverage (program_data log ∷ lines) =
      cover (heard true frames) next (data_coverage frames coverage) lines
  cover frames next coverage (other log ∷ lines) =
      cover (heard (not (is_consumed frames log)) frames) next
        (other_coverage frames (is_consumed frames log) coverage) lines

  unfoldable pub successful_self_cpi_coverage : List String → Result LogScopeError Coverage
  successful_self_cpi_coverage logs = cover [] 0 [] (map line_of logs)

-- The entries on one side and on the other.
unfoldable pub event_cpi_coverage_is_incomplete :
    List (ℕ × SelfCpiCoverage) → List (ℕ × DirectEventCoverage) → Bool
event_cpi_coverage_is_incomplete self_cpi direct =
    any
      (λ (entry : ℕ × SelfCpiCoverage).
        let seen = or_default (entry_of entry.0 direct) no_direct_events in
        entry.1.pairing_gap
        || entry.1.pending_direct_event
        || seen.invalid_event
        || not (entry.1.successful_event_calls == seen.eligible_events))
      self_cpi
    || any
        (λ (entry : ℕ × DirectEventCoverage).
          (elim (entry_of entry.0 self_cpi) [ none ↦ true | some c ↦ false ])
          && (entry.1.invalid_event || ltb 0 entry.1.eligible_events))
        direct
