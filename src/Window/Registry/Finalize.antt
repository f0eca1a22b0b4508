-- ===== src/Window/Registry/Finalize.antt =====
-- crates/discovery-engine/src/lib.rs: finalization. The registry's lock is held for each operation, and
-- a claim is exclusive through the token's atomic flag.
pub mod Claims
use text.Mathlib.Text.{◌==◌ as str_eq}
use soldisco.Prelude.{
  ℕ, ◌-◌, Ordering, compare, Option, none, some, List, [], ◌∷◌, Bool, true, false, not, ◌&&◌, ◌==◌,
  length, retain, if◌then◌else◌,
}
use soldisco.Prelude.Int.{ℤ, ltb_ℤ, compare_ℤ}
use soldisco.Prelude.Order.{then_with}
use soldisco.Prelude.Sort.{sort_by}
use soldisco.Domain.{SourceProgram}
use soldisco.Window.Target.{
  ObservationTarget, ObservationWindow, target_eq, compare_target, target_source_program,
  WindowIncompleteReason,
}
use soldisco.Window.Cells.{
  Cells, int_eq, was_confirmed, is_settled, read_incomplete_reason, try_claim_finalization,
  release_finalization, mark_finalized, cancel_with_reason, cancel_if_pending, is_confirmed,
}
use soldisco.Window.Registry.{
  Token, Registry, write, find_window, remove_window, retain_if_durable, rotate_closed_windows,
}

unfoldable pub window_eq : ObservationWindow → ObservationWindow → Bool
unfolding target_eq
window_eq a b =
    target_eq a.target b.target
    && str_eq a.mint b.mint
    && int_eq a.opened_at_unix_ms b.opened_at_unix_ms
    && int_eq a.closes_at_unix_ms b.closes_at_unix_ms

unfoldable pub token_eq : Token → Token → Bool
unfolding window_eq
token_eq a b = a.generation == b.generation && window_eq a.window b.window

abbrev pub has_durable_id : Option ℤ → Bool
has_durable_id none = false
has_durable_id (some id) = true

-- The tests that a candidate and a claim share.
unfoldable pub is_finalizable : Cells → Bool
unfolding was_confirmed is_settled
is_finalizable self =
    was_confirmed self
    && has_durable_id self.durable_window_id
    && is_settled self
    && not self.finalized

abbrev closes_before : Token → Token → Ordering
closes_before a b =
    then_with (compare_ℤ a.window.closes_at_unix_ms b.window.closes_at_unix_ms) (
      then_with (compare_target a.window.target b.window.target)
        (compare a.generation b.generation))

unfoldable pub finalization_candidates : Registry → ℤ → Registry × List Token
unfolding is_finalizable
finalization_candidates r now =
    let rotated = rotate_closed_windows r now in
    (
      rotated,
      sort_by closes_before (
          retain
            (λ token.
              is_finalizable (rotated.heap token.cell)
              && not (rotated.heap token.cell).finalization_claimed)
            rotated.retained),
    )

unfoldable pub find_claimed : (ℕ → Cells) → Token → List Token → Option Token
unfolding token_eq is_finalizable
find_claimed heap candidate [] = none
find_claimed heap candidate (token ∷ rest) =
    if token_eq token candidate && token.cell == candidate.cell && is_finalizable (heap token.cell)
    then some token
    else find_claimed heap candidate rest

-- `is_none_or(|watermark| *watermark < closes_at)`
abbrev pub is_behind : Option ℤ → ℤ → Bool
is_behind none closes_at = true
is_behind (some watermark) closes_at = ltb_ℤ watermark closes_at

-- A window without a reason waits until its source has progressed to the close.
abbrev pub waits : Option WindowIncompleteReason → Option ℤ → ℤ → Bool
waits (some reason) watermark closes_at = false
waits none watermark closes_at = is_behind watermark closes_at

-- ObservationWindowFinalizationClaim
pub record FinalizationClaim : Type 0 where
  pub token : Token
  pub incomplete_reason : Option WindowIncompleteReason

-- The atomic flag decides unless the claim has to wait.
unfoldable pub take_claim :
    Registry → Token → Option WindowIncompleteReason → Bool → Registry × Option FinalizationClaim
unfolding try_claim_finalization
take_claim r token reason wait =
    let (claimed, won) = try_claim_finalization (r.heap token.cell) in
    if wait
    then (r, none)
    else if won
    then (
      record r { heap = write r.heap token.cell claimed },
      some (record { token = token; incomplete_reason = reason }),
    )
    else (r, none)

-- The claim of the token that was found.
unfoldable pub claim_found : Registry → Option Token → Registry × Option FinalizationClaim
unfolding take_claim
claim_found r none = (r, none)
claim_found r (some token) =
    let reason = read_incomplete_reason (r.heap token.cell) in
    take_claim r token reason (
      waits reason (r.latest_source_progress (target_source_program token.window.target))
        token.window.closes_at_unix_ms)

unfoldable pub claim_finalization : Registry → Token → Registry × Option FinalizationClaim
unfolding claim_found find_claimed
claim_finalization r candidate = claim_found r (find_claimed r.heap candidate r.retained)

-- `mark_committed` consumes the claim, so that the claim is dropped after it.
unfoldable pub mark_committed : Registry → FinalizationClaim → Registry × Bool
unfolding mark_finalized release_finalization
mark_committed r claim =
    let (finalized, won) = mark_finalized (r.heap claim.token.cell) in
    (record r { heap = write r.heap claim.token.cell (release_finalization finalized) }, won)

-- Dropping a claim without a commit.
unfoldable pub drop_claim : Registry → FinalizationClaim → Registry
unfolding release_finalization
drop_claim r claim = record r {
  heap = write r.heap claim.token.cell (release_finalization (r.heap claim.token.cell));
}

unfoldable pub cleanup_finalized : Registry → Registry × ℕ
cleanup_finalized r =
    let kept = retain (λ token. not (r.heap token.cell).finalized) r.retained in
    (record r { retained = kept }, length r.retained - length kept)
