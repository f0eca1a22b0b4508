-- ===== src/Window/Cells/Steps.antt =====
-- crates/discovery-engine/src/lib.rs: the methods of a token that is shared, as atomic steps of its callers.
use soldisco.Prelude.{ℕ, ◌-◌, ◌==◌, Option, if◌then◌else◌, List, [], ◌∷◌, none, some}
use soldisco.Prelude.Int.{ℤ}
use soldisco.Window.Target.{WindowIncompleteReason}
use soldisco.Window.Cells.{
  Cells, new_cells, confirm, cancel_if_pending, mark_incomplete, cancel_with_reason,
  set_durable_window_id, mark_admitted, mark_settled, try_claim_finalization, release_finalization,
  mark_finalized,
}

-- The atomic steps that write, and the load that `mark_admitted` begins with; `admits n` is the update of
-- the caller that stands n-th after its load. A confirmed window that is cancelled gets its reason before
-- its state, as `marks_incomplete` and then `cancels` do.
pub data TokenCall : Type 0 where
  confirms cancels_pending begins_admission settles claims releases finalizes : TokenCall
  admits : ℕ → TokenCall
  marks_incomplete cancels : WindowIncompleteReason → TokenCall
  sets_durable_id : ℤ → TokenCall

-- A token's cells, and what each caller of `mark_admitted` that has yet to update them met at its load.
pub record SharedToken : Type 0 where
  pub cells : Cells
  pub loaded : List Cells

abbrev pub opened_token : SharedToken
opened_token = record { cells = new_cells; loaded = [] }

-- Every other method writes at one atomic step.
unfoldable pub write_step : Cells → TokenCall → Cells
unfolding confirm cancel_if_pending mark_incomplete cancel_with_reason set_durable_window_id
    mark_settled try_claim_finalization release_finalization mark_finalized
write_step self confirms = (confirm self).0
write_step self cancels_pending = cancel_if_pending self
write_step self begins_admission = self
write_step self (admits n) = self
write_step self settles = (mark_settled self).0
write_step self claims = (try_claim_finalization self).0
write_step self releases = release_finalization self
write_step self finalizes = (mark_finalized self).0
write_step self (marks_incomplete reason) = (mark_incomplete self reason).0
write_step self (cancels reason) = cancel_with_reason self reason
write_step self (sets_durable_id id) = (set_durable_window_id self id).0

abbrev pub with_first : Cells → Option (Cells × List Cells) → Option (Cells × List Cells)
with_first first none = none
with_first first (some (seen, rest)) = some (seen, first ∷ rest)

-- The n-th caller, and the others.
abbrev pub pick : ℕ → List Cells → Option (Cells × List Cells)
pick n [] = none
pick n (first ∷ rest) =
    let later = pick (n - 1) rest in if n == 0 then some (first, rest) else with_first first later

abbrev pub update : Cells → List Cells → Option (Cells × List Cells) → SharedToken
update cells loaded none = record { cells = cells; loaded = loaded }
update cells loaded (some (seen, rest)) = record {
  cells = (mark_admitted seen cells).0;
  loaded = rest;
}

unfoldable pub call : SharedToken → TokenCall → SharedToken
unfolding write_step
call self begins_admission = record self { loaded = self.cells ∷ self.loaded }
call self (admits n) = update self.cells self.loaded (pick n self.loaded)
call self c = record self { cells = write_step self.cells c }

unfoldable pub call_all : SharedToken → List TokenCall → SharedToken
unfolding call
call_all self [] = self
call_all self (c ∷ rest) = call_all (call self c) rest
