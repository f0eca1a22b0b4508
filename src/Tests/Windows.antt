-- ===== src/Tests/Windows.antt =====
-- Observation windows of crates/discovery-engine/src/lib.rs on concrete targets and tokens.
use soldisco.Prelude.{
  ◌==◌, if◌then◌else◌, inr, ◌≤◌, ◌<◌, ◌≡◌, refl, inl, List, [], ◌∷◌, some, none, true, false, arith,
  length,
}
use soldisco.Prelude.Int.{pos}
use soldisco.Domain.{pump}
use soldisco.Window.Target.{
  pump_mint, ObservationWindow, stream_stopped, source_disconnected, target_eq,
}
use soldisco.Window.Cells.{
  WindowState, Cells, new_cells, read_incomplete_reason, is_open_at, mark_admitted, is_finalized,
  count_admission,
}
use soldisco.Window.Cells.Steps.{
  TokenCall, SharedToken, opened_token, confirms, begins_admission, admits, settles, finalizes,
  cancels, write_step, call, call_all,
}
use soldisco.Window.Cells.Traces.{KeepsShared, IsCoherent, call_all-Keeps, call_all-IsCoherent}
use soldisco.Window.Registry.{rotate_closed_windows, SourceCoverageGap, Token, Registry}
use soldisco.Window.Registry.Provision.{provision_target, close_time}
use soldisco.Window.Registry.Provision.Capacity.{provision_target_within}
use soldisco.Window.Registry.Provision.Inherit.{provision_target-inherited}
use soldisco.Window.Registry.Events.{record_source_coverage_gap}
use soldisco.Window.Registry.Events.Coverage.{record_source_coverage_gap-reached}
use soldisco.Window.Registry.Finalize.{FinalizationClaim, claim_finalization}
use soldisco.Window.Registry.Finalize.Claims.{IsSafeClaim, claim_finalization-IsSafeClaim}
use soldisco.Window.Registry.Cancel.{cancel_confirmed_matching}
use soldisco.Window.Registry.Cancel.Frozen.{cancel_confirmed_matching-frozen}

abbrev mint_window : ObservationWindow
mint_window = record {
  target = pump_mint "mint-a";
  mint = "mint-a";
  opened_at_unix_ms = pos 1000;
  closes_at_unix_ms = pos 61000;
}

abbrev mint_token : Token
mint_token = record { generation = 0; window = mint_window; cell = 0 }

abbrev later_window : ObservationWindow
later_window = record {
  target = pump_mint "mint-b";
  mint = "mint-b";
  opened_at_unix_ms = pos 2000;
  closes_at_unix_ms = pos 62000;
}

abbrev later_token : Token
later_token = record { generation = 1; window = later_window; cell = 1 }

-- The cells of a confirmed, durable token that has settled its three admissions.
abbrev settled_cells : Cells
settled_cells = record {
  state = WindowState.confirmed;
  durable_window_id = some (pos 7);
  admitted = 3;
  settled = 3;
  incomplete_reason = 0;
  finalization_claimed = false;
  finalized = false;
}

-- One retained window whose source has progressed beyond its close, and one active window.
abbrev busy_registry : Registry
busy_registry = record {
  maximum_active = 2;
  next_generation = 2;
  windows = (pump_mint "mint-b", later_token) ∷ [];
  retained = mint_token ∷ [];
  latest_source_coverage_gap = λ source. none;
  latest_source_progress = λ source. some (pos 70000);
  heap = λ cell. if cell == 0 then settled_cells else new_cells;
  next_cell = 2;
}

abbrev claimed_registry : Registry
claimed_registry = record busy_registry {
  heap = λ cell. record settled_cells { finalization_claimed = true };
}

abbrev mint_claim : FinalizationClaim
mint_claim = record { token = mint_token; incomplete_reason = none }

abbrev settled_token : SharedToken
settled_token = record { cells = settled_cells; loaded = [] }

abbrev some_calls : List TokenCall
some_calls =
    confirms
    ∷ begins_admission
    ∷ begins_admission
    ∷ admits 0
    ∷ settles
    ∷ finalizes
    ∷ admits 0
    ∷ cancels stream_stopped
    ∷ []

-- The caller that began before the finalization is admitted after it.
late_admission : (call_all opened_token some_calls).cells.admitted ≡ 2
unfolding call_all call write_step mark_admitted is_finalized count_admission
late_admission = refl

call_all-Keeps_example : KeepsShared settled_token (call_all settled_token some_calls)
call_all-Keeps_example = call_all-Keeps settled_token some_calls

call_all-IsCoherent_example : IsCoherent (call_all opened_token some_calls).cells
call_all-IsCoherent_example = call_all-IsCoherent some_calls

provision_target_within_example :
    length (provision_target busy_registry (pump_mint "mint-c") "mint-c" (pos 3000) 60000).0.windows
    ≤ 2
provision_target_within_example =
    provision_target_within busy_registry (pump_mint "mint-c") "mint-c" (pos 3000) 60000
      (omega arith) (omega arith)

record_source_coverage_gap-reached_example :
    0
    < ((record_source_coverage_gap busy_registry pump (pos 5000) source_disconnected).0.heap
        0).incomplete_reason
record_source_coverage_gap-reached_example =
    record_source_coverage_gap-reached busy_registry pump (pos 5000) source_disconnected mint_token
      (inr (inl refl)) refl refl refl

claim_finalization-IsSafeClaim_example :
    IsSafeClaim busy_registry mint_token (claim_finalization busy_registry mint_token).0 mint_claim
unfolding claim_finalization read_incomplete_reason
claim_finalization-IsSafeClaim_example =
    claim_finalization-IsSafeClaim busy_registry mint_token mint_claim refl

cancel_confirmed_matching-frozen_example :
    (cancel_confirmed_matching claimed_registry stream_stopped (λ target. true)).0.heap 0
    ≡ claimed_registry.heap 0
cancel_confirmed_matching-frozen_example =
    cancel_confirmed_matching-frozen claimed_registry stream_stopped (λ target. true) 0
      ((λ e. ground arith), tt) refl

abbrev mint_gap : SourceCoverageGap
mint_gap = record { observed_at_unix_ms = pos 5000; reason = source_disconnected }

abbrev gap_registry : Registry
gap_registry = record busy_registry { latest_source_coverage_gap = λ source. some mint_gap }

provision_target-inherited_example :
    0
    < ((provision_target gap_registry (pump_mint "mint-c") "mint-c" (pos 3000) 60000).0.heap
        (provision_target gap_registry
          (pump_mint "mint-c")
          "mint-c"
          (pos 3000)
          60000).1.cell).incomplete_reason
unfolding provision_target rotate_closed_windows close_time is_open_at target_eq
provision_target-inherited_example =
    provision_target-inherited gap_registry (pump_mint "mint-c") "mint-c" (pos 3000) 60000 mint_gap
      refl refl refl refl
