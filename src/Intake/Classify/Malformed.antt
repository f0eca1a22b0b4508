-- ===== src/Intake/Classify/Malformed.antt =====
-- Logs that cannot be scoped leave no window complete (apps/server/src/jobs/intake.rs).
use soldisco.Prelude.{
  ℕ, ◌<◌, String, Option, none, List, ◌++◌, map, true, false, err, Result-cases, inl, inr, ◌≡◌,
}
use soldisco.Prelude.Int.{ℤ}
use soldisco.Domain.{Network}
use soldisco.Pump.{PumpProgram, program_id, source_program}
use soldisco.Window.Target.{target_source_program, decode_gap}
use soldisco.Window.Registry.{Token, IsIn, source_eq}
use soldisco.Window.Cells.{covers}
use soldisco.Window.Registry.Events.Coverage.{record_source_coverage_gap-reached}
use soldisco.Intake.Scope.{LogScopeError, scope_program_data_logs}
use soldisco.Intake.SelfCpi.{successful_self_cpi_coverage}
use soldisco.Intake.Classify.{
  ProgramLogNotification, Findings, notification_mentions_program, examine_program,
}

-- When a program that the logs mention has logs that cannot be scoped, then after its turn every active or
-- retained token of its source that is not finalized and whose window covers the time of the notification
-- has an incomplete reason.
pub examine_program_fails_closed :
    (network : Network) (maximum_discovery_age : ℕ) (observed_at now : ℤ)
    (base64_decode : String → Option (List ℕ)) (notification : ProgramLogNotification)
    (self : Findings) (program : PumpProgram) (error : LogScopeError) (t : Token)
    → notification_mentions_program (program_id program) notification.log_messages ≡ true
    → scope_program_data_logs
        (program_id program)
        notification.slot
        none
        notification.signature
        notification.log_messages
      ≡ err error
    → IsIn t (map (λ e. e.1) self.windows.windows ++ self.windows.retained)
    → source_eq (target_source_program t.window.target) (source_program program) ≡ true
    → (self.windows.heap t.cell).finalized ≡ false
    → covers t.window observed_at ≡ true
    → 0
      < ((examine_program network maximum_discovery_age observed_at now base64_decode notification
            self program).windows.heap
          t.cell).incomplete_reason
unfolding examine_program
examine_program_fails_closed network age observed_at now decode notification self program error t
      mentioned failed held same open_yet covered =
    let reached =
      record_source_coverage_gap-reached self.windows (source_program program) observed_at
        decode_gap t held same open_yet covered in
    elim (Result-cases
      (successful_self_cpi_coverage (program_id program) notification.log_messages)) [
        | inl (coverage, e) ↦ rw (mentioned, e, failed) reached
        | inr (other, e) ↦ rw (mentioned, e) reached
      ]
