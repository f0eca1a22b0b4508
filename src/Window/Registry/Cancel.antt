-- ===== src/Window/Registry/Cancel.antt =====
-- crates/discovery-engine/src/lib.rs: the cancellation of confirmed windows, all or those of a source.
pub mod Frozen
use soldisco.Prelude.{
  ℕ, ◌+◌, suc, Option, none, some, List, [], ◌∷◌, map, retain, Bool, true, false, not, ◌&&◌,
  if◌then◌else◌,
}
use soldisco.Domain.{SourceProgram}
use soldisco.Window.Target.{ObservationTarget, target_source_program, WindowIncompleteReason}
use soldisco.Window.Cells.{
  Cells, was_confirmed, is_confirmed, cancel_if_pending, cancel_with_reason,
}
use soldisco.Window.Registry.{
  Token, Registry, write, source_eq, find_window, remove_window, retain_if_durable,
}

-- The body of the loop over the active windows, for a window that was removed.
unfoldable pub cancel_token : WindowIncompleteReason → Registry → ℕ → Token → Registry × ℕ
unfolding was_confirmed cancel_with_reason cancel_if_pending
cancel_token reason r cancelled token =
    let heap = write r.heap token.cell (cancel_with_reason (r.heap token.cell) reason) in
    if was_confirmed (r.heap token.cell)
    then (
      record r { heap = heap; retained = retain_if_durable heap r.retained token },
      cancelled + 1,
    )
    else (
      record r { heap = write r.heap token.cell (cancel_if_pending (r.heap token.cell)) },
      cancelled,
    )

unfoldable pub cancel_target :
    WindowIncompleteReason → Registry → ℕ → ObservationTarget → Registry × ℕ
unfolding cancel_token
cancel_target reason r cancelled target = elim (find_window target r.windows) [
  | none ↦ (r, cancelled)
  | some token ↦
      cancel_token reason (record r { windows = remove_window target r.windows }) cancelled token
]

unfoldable pub cancel_active :
    WindowIncompleteReason → Registry → ℕ → List ObservationTarget → Registry × ℕ
unfolding cancel_target
cancel_active reason r cancelled [] = (r, cancelled)
cancel_active reason r cancelled (target ∷ rest) =
    let (next, count) = cancel_target reason r cancelled target in
    cancel_active reason next count rest

-- The guard of the loop over the retained windows.
abbrev pub is_cancellable : Cells → Bool
is_cancellable self = not self.finalized && not self.finalization_claimed && is_confirmed self.state

unfoldable pub cancel_retained :
    (ObservationTarget → Bool)
    → WindowIncompleteReason
    → (ℕ → Cells)
    → ℕ
    → List Token
    → (ℕ → Cells) × ℕ
unfolding cancel_with_reason
cancel_retained matches reason heap cancelled [] = (heap, cancelled)
cancel_retained matches reason heap cancelled (token ∷ rest) =
    let chosen = matches token.window.target && is_cancellable (heap token.cell) in
    let heap_with = write heap token.cell (cancel_with_reason (heap token.cell) reason) in
    cancel_retained matches reason (if chosen then heap_with else heap)
      (if chosen then cancelled + 1 else cancelled) rest

unfoldable pub cancel_confirmed_matching :
    Registry → WindowIncompleteReason → (ObservationTarget → Bool) → Registry × ℕ
unfolding cancel_active cancel_retained
cancel_confirmed_matching r reason matches =
    let (active, cancelled) =
      cancel_active reason r 0 (retain matches (map (λ e. e.0) r.windows)) in
    let (heap, total) = cancel_retained matches reason active.heap cancelled active.retained in
    (record active { heap = heap }, total)

unfoldable pub cancel_all_confirmed : Registry → WindowIncompleteReason → Registry × ℕ
unfolding cancel_confirmed_matching
cancel_all_confirmed r reason = cancel_confirmed_matching r reason (λ target. true)

unfoldable pub cancel_source_confirmed :
    Registry → SourceProgram → WindowIncompleteReason → Registry × ℕ
unfolding cancel_confirmed_matching
cancel_source_confirmed r source reason =
    cancel_confirmed_matching r reason (λ target. source_eq (target_source_program target) source)
