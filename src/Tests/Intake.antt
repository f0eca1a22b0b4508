-- ===== src/Tests/Intake.antt =====
-- Logs of apps/server/src/jobs/intake.rs and the events in them.
use soldisco.Prelude.{
  String, List, [], ◌∷◌, ◌==◌, if◌then◌else◌, inl, some, none, true, ok, err, map, ◌≡◌, ◌<◌, refl,
  arith,
}
use soldisco.Prelude.Text.{is_blank}
use soldisco.Prelude.Int.{pos}
use soldisco.Domain.{solana_mainnet, market_completed}
use soldisco.Pump.{PumpProgram, program_id}
use soldisco.Pump.Model.{PumpEvent, PumpCompleteEvent}
use soldisco.Window.Target.{pump_mint, for_market}
use soldisco.Window.Cells.{WindowState, Cells, new_cells}
use soldisco.Window.Registry.{Token, Registry}
use soldisco.Normalization.Event.{Normalized, normalize_event, bonding_curve_market}
use soldisco.Intake.Lines.{
  line_of, is_log_truncation_marker, parse_invoke, parse_exit, split_once, strip_suffix,
  parse_usize, is_plausible_program_id,
}
use soldisco.Intake.Scope.{unclosed_invocations, scope_program_data_logs, walk}
use soldisco.Intake.Scope.Nested.{
  Happenings, done, emits, remarks, calls, lines_of, own_data_from, numbered,
}
use soldisco.Intake.Scope.Numbered.{scope_program_data_logs-numbered}
use soldisco.Intake.Classify.{
  ProgramLogNotification, no_findings, notification_mentions_program, examine_program,
}
use soldisco.Intake.Classify.Malformed.{examine_program_fails_closed}
use soldisco.Intake.Targets.Followed.{followed_target, normalize_event-followed}

-- An outer program that invokes the program, which logs an event and invokes itself in silence.
abbrev logs : List String
logs =
    "Program outer invoke [1]" ∷ "Program P invoke [2]" ∷ "Program data: A" ∷ "Program P invoke [3]"
    ∷ "Program P consumed 2000 of 100000 compute units" ∷ "Program P success" ∷ "Program P success"
    ∷ "Program data: B" ∷ "Program outer success" ∷ []

abbrev happened : Happenings
happened =
    calls "outer" true
      (calls "P" true
        (emits "Program data: A"
          (calls "P" true (remarks "Program P consumed 2000 of 100000 compute units" done) done))
        (emits "Program data: B" done))
      done

rendered : map line_of logs ≡ lines_of 1 happened
unfolding line_of is_log_truncation_marker parse_invoke parse_exit split_once strip_suffix
    parse_usize is_plausible_program_id
rendered = refl

scope_program_data_logs-numbered_example :
    scope_program_data_logs "P" 5 none "sig" logs
    ≡ ok (numbered "P" 5 none "sig" [] (own_data_from "P" 0 happened))
unfolding is_blank
scope_program_data_logs-numbered_example =
    scope_program_data_logs-numbered "P" 5 none "sig" logs happened refl rendered (omega arith)
      (omega arith)

abbrev completed_event : PumpCompleteEvent
completed_event = record {
  user = "user";
  mint = "mint";
  bonding_curve = "curve";
  timestamp = pos 1700000000;
  quote_mint = "quote";
}

abbrev completion : Normalized
completion = record {
  event_kind = "COMPLETE";
  market = bonding_curve_market solana_mainnet "mint" "curve" "quote";
  payload = market_completed "user";
  discovered_market = none;
}

normalized : normalize_event solana_mainnet [] (PumpEvent.complete completed_event) ≡ ok completion
unfolding normalize_event
normalized = refl

normalize_event-followed_example :
    for_market completion.market
    ≡ followed_target solana_mainnet (PumpEvent.complete completed_event)
normalize_event-followed_example =
    normalize_event-followed solana_mainnet [] (PumpEvent.complete completed_event) completion tt
      normalized

abbrev followed_token : Token
followed_token = record {
  generation = 0;
  window = record {
    target = pump_mint "mint";
    mint = "mint";
    opened_at_unix_ms = pos 1000;
    closes_at_unix_ms = pos 61000;
  };
  cell = 0;
}

abbrev open_cells : Cells
open_cells = record new_cells { state = WindowState.confirmed; durable_window_id = some (pos 7) }

abbrev open_registry : Registry
open_registry = record {
  maximum_active = 2;
  next_generation = 1;
  windows = (pump_mint "mint", followed_token) ∷ [];
  retained = [];
  latest_source_coverage_gap = λ source. none;
  latest_source_progress = λ source. none;
  heap = λ cell. if cell == 0 then open_cells else new_cells;
  next_cell = 1;
}

-- The program is invoked and does not return.
abbrev unclosed : ProgramLogNotification
unclosed = record {
  subscription_id = 3;
  slot = 5;
  signature = "sig";
  log_messages = "Program 6EF8rrecthR5Dkzon8Nwu78hRvfCKubJ14M5uBEwF6P invoke [1]" ∷ [];
  transaction_error = none;
}

mentioned : notification_mentions_program (program_id PumpProgram.pump) unclosed.log_messages ≡ true
unfolding notification_mentions_program parse_invoke split_once strip_suffix parse_usize
    is_plausible_program_id
mentioned = refl

unscoped :
    scope_program_data_logs (program_id PumpProgram.pump) 5 none "sig" unclosed.log_messages
    ≡ err (unclosed_invocations 1)
unfolding is_blank scope_program_data_logs walk line_of is_log_truncation_marker parse_invoke
    parse_exit split_once strip_suffix parse_usize is_plausible_program_id
unscoped = refl

examine_program_fails_closed_example :
    0
    < ((examine_program solana_mainnet 60000
          (pos 5000)
          (pos 5000)
          (λ text. none)
          unclosed
          (no_findings open_registry)
          PumpProgram.pump).windows.heap
        0).incomplete_reason
examine_program_fails_closed_example =
    examine_program_fails_closed solana_mainnet 60000 (pos 5000) (pos 5000) (λ text. none) unclosed
      (no_findings open_registry) PumpProgram.pump (unclosed_invocations 1) followed_token mentioned
      unscoped (inl refl) refl refl refl
