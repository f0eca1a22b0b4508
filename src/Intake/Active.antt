-- ===== src/Intake/Active.antt =====
-- apps/server/src/jobs/intake.rs: whether an event is in an active or in a confirmed window.
use soldisco.Prelude.{ℕ, Option, none, some, List, Bool, false, ◌&&◌, any}
use soldisco.Prelude.Int.{ℤ}
use soldisco.Pump.Model.{PumpEvent}
use soldisco.Window.Target.{ObservationTarget, target_eq}
use soldisco.Window.Cells.{Cells, is_confirmed_at}
use soldisco.Window.Registry.{Token, Registry}
use soldisco.Window.Registry.Events.{is_active}
use soldisco.Intake.Targets.{event_tracking_target}

abbrev is_target_active : Registry → ℤ → Option ObservationTarget → Bool
is_target_active windows observed_at none = false
is_target_active windows observed_at (some target) = is_active windows target observed_at

unfoldable pub event_is_in_active_window : PumpEvent → Registry → ℤ → Bool
event_is_in_active_window event windows observed_at =
    is_target_active windows observed_at (event_tracking_target event)

abbrev is_target_confirmed : (ℕ → Cells) → List Token → ℤ → Option ObservationTarget → Bool
is_target_confirmed heap tokens observed_at none = false
is_target_confirmed heap tokens observed_at (some target) =
    any
      (λ (t : Token).
        target_eq t.window.target target && is_confirmed_at t.window (heap t.cell) observed_at)
      tokens

unfoldable pub event_matches_confirmed_window : (ℕ → Cells) → PumpEvent → List Token → ℤ → Bool
event_matches_confirmed_window heap event tokens observed_at =
    is_target_confirmed heap tokens observed_at (event_tracking_target event)
