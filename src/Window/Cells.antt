-- ===== src/Window/Cells.antt =====
-- crates/discovery-engine/src/lib.rs: the shared atomics behind an observation-window token, and its
-- methods as steps on them. Every clone of a token shares one record of cells. A compare-exchange is
-- one atomic step; a method that retries one is modelled by the attempt that succeeds. `mark_admitted` has
-- two atomic operations that others may come between, and each of them is a step. What another method
-- loads before its write still holds when it writes: a confirmation stays, and `admitted` only grows.
pub mod Steps
pub mod Traces
use soldisco.Prelude.{
  ℕ, ◌+◌, ◌^◌, Option, none, some, Bool, true, false, ◌&&◌, ◌||◌, not, leb, ltb, ◌==◌,
  if◌then◌else◌,
}
use soldisco.Prelude.Int.{ℤ, pos, leb_ℤ, ltb_ℤ, compare_ℤ}
use soldisco.Window.Target.{
  ObservationWindow, WindowIncompleteReason, window_complete, code, from_code,
}

-- WINDOW_PENDING, WINDOW_CONFIRMED, WINDOW_CANCELLED_PENDING and WINDOW_CANCELLED_CONFIRMED
pub data WindowState : Type 0 where
  pending confirmed cancelled_pending cancelled_confirmed : WindowState

pub data ObservationWindowStatus : Type 0 where
  pending confirmed cancelled : ObservationWindowStatus

pub record Cells : Type 0 where
  pub state : WindowState
  pub durable_window_id : Option ℤ
  pub admitted : ℕ  -- u64
  pub settled : ℕ  -- u64
  pub incomplete_reason : ℕ  -- u8
  pub finalization_claimed : Bool
  pub finalized : Bool

abbrev pub new_cells : Cells
new_cells = record {
  state = WindowState.pending;
  durable_window_id = none;
  admitted = 0;
  settled = 0;
  incomplete_reason = window_complete;
  finalization_claimed = false;
  finalized = false;
}

abbrev pub is_live : WindowState → Bool
is_live WindowState.pending = true
is_live WindowState.confirmed = true
is_live WindowState.cancelled_pending = false
is_live WindowState.cancelled_confirmed = false

abbrev pub is_confirmed : WindowState → Bool
is_confirmed WindowState.confirmed = true
is_confirmed _ = false

abbrev pub covers : ObservationWindow → ℤ → Bool
covers window observed_at =
    leb_ℤ window.opened_at_unix_ms observed_at && ltb_ℤ observed_at window.closes_at_unix_ms

unfoldable pub is_open_at : ObservationWindow → Cells → ℤ → Bool
is_open_at window self observed_at = is_live self.state && covers window observed_at

unfoldable pub is_confirmed_at : ObservationWindow → Cells → ℤ → Bool
is_confirmed_at window self observed_at = is_confirmed self.state && covers window observed_at

abbrev pub status_of : WindowState → ObservationWindowStatus
status_of WindowState.pending = ObservationWindowStatus.pending
status_of WindowState.confirmed = ObservationWindowStatus.confirmed
status_of WindowState.cancelled_pending = cancelled
status_of WindowState.cancelled_confirmed = cancelled

abbrev confirm_state : WindowState → WindowState × Bool
confirm_state WindowState.pending = (WindowState.confirmed, true)
confirm_state WindowState.confirmed = (WindowState.confirmed, true)
confirm_state WindowState.cancelled_pending = (WindowState.cancelled_pending, false)
confirm_state WindowState.cancelled_confirmed = (WindowState.cancelled_confirmed, false)

unfoldable pub confirm : Cells → Cells × Bool
confirm self = (record self { state = (confirm_state self.state).0 }, (confirm_state self.state).1)

abbrev cancel_pending_state : WindowState → WindowState
cancel_pending_state WindowState.pending = WindowState.cancelled_pending
cancel_pending_state other = other

unfoldable pub cancel_if_pending : Cells → Cells
cancel_if_pending self = record self { state = cancel_pending_state self.state }

unfoldable pub mark_incomplete : Cells → WindowIncompleteReason → Cells × Bool
unfolding code
mark_incomplete self reason =
    if self.incomplete_reason == window_complete
    then (record self { incomplete_reason = code reason }, true)
    else (self, false)

unfoldable pub read_incomplete_reason : Cells → Option WindowIncompleteReason
unfolding from_code
read_incomplete_reason self = from_code self.incomplete_reason

cancel_state_with_reason : WindowState → Cells → WindowIncompleteReason → Cells
unfolding mark_incomplete
cancel_state_with_reason WindowState.pending self reason = record self {
  state = WindowState.cancelled_pending;
}
cancel_state_with_reason WindowState.confirmed self reason =
    let marked = (mark_incomplete self reason).0 in
    record marked { state = WindowState.cancelled_confirmed }
cancel_state_with_reason WindowState.cancelled_pending self reason = self
cancel_state_with_reason WindowState.cancelled_confirmed self reason = self

unfoldable pub cancel_with_reason : Cells → WindowIncompleteReason → Cells
unfolding cancel_state_with_reason
cancel_with_reason self reason = cancel_state_with_reason self.state self reason

abbrev pub is_ever_confirmed : WindowState → Bool
is_ever_confirmed WindowState.pending = false
is_ever_confirmed WindowState.confirmed = true
is_ever_confirmed WindowState.cancelled_pending = false
is_ever_confirmed WindowState.cancelled_confirmed = true

unfoldable pub was_confirmed : Cells → Bool
was_confirmed self = is_ever_confirmed self.state

abbrev pub int_eq : ℤ → ℤ → Bool
int_eq a b = leb_ℤ a b && leb_ℤ b a

unfoldable pub set_durable_window_id : Cells → ℤ → Cells × Bool
unfolding was_confirmed
set_durable_window_id self id =
    if leb_ℤ id (pos 0) || not (was_confirmed self)
    then (self, false)
    else elim self.durable_window_id [
      | some existing ↦ (self, int_eq existing id)
      | none ↦ (record self { durable_window_id = some id }, true)
    ]

unfoldable pub is_finalized : Cells → Bool
is_finalized self = self.finalized

-- The `fetch_update` of `mark_admitted`: it fails only on u64 overflow.
unfoldable pub count_admission : Cells → Cells × Bool
count_admission self =
    if ltb (self.admitted + 1) (2 ^ 64)
    then (record self { admitted = self.admitted + 1 }, true)
    else (self, false)

-- Two atomic operations: the load meets the cells `seen`, and the update meets `self`, which is what other
-- callers have made of them in between.
unfoldable pub mark_admitted : Cells → Cells → Cells × Bool
mark_admitted seen self = if is_finalized seen then (self, false) else count_admission self

unfoldable pub mark_settled : Cells → Cells × Bool
mark_settled self =
    if leb self.admitted self.settled
    then (self, false)
    else (record self { settled = self.settled + 1 }, true)

unfoldable pub is_settled : Cells → Bool
is_settled self = self.admitted == self.settled

unfoldable pub try_claim_finalization : Cells → Cells × Bool
try_claim_finalization self =
    if self.finalization_claimed
    then (self, false)
    else (record self { finalization_claimed = true }, true)

unfoldable pub release_finalization : Cells → Cells
release_finalization self = record self { finalization_claimed = false }

unfoldable pub mark_finalized : Cells → Cells × Bool
mark_finalized self =
    if self.finalized then (self, false) else (record self { finalized = true }, true)
