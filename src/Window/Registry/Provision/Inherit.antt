-- ===== src/Window/Registry/Provision/Inherit.antt =====
-- A new window inherits the coverage gap of its source (crates/discovery-engine/src/lib.rs).
use soldisco.Prelude.{
  ℕ, ◌<◌, ◌≡◌, ◌∙◌, refl, ap, inl, inr, Option, none, some, List, [], ◌∷◌, String, true, map,
  retain, arith, leb, length, Bool-cases,
}
use soldisco.Prelude.Int.{ℤ, leb_ℤ, ltb_ℤ}
use soldisco.Window.Target.{ObservationTarget, target_source_program, code}
use soldisco.Window.Cells.{new_cells, mark_incomplete}
use soldisco.Window.Registry.{
  Token, SourceCoverageGap, Registry, find_window, is_closed, close_window, close_windows,
  rotate_closed_windows,
}
use soldisco.Window.Registry.Provision.{
  close_time, evict, make_room, inherit_gap, new_token, open_window, return_or_open, open_at,
  provision_target,
}

gap-close_windows :
    (r : Registry) (targets : List ObservationTarget)
    → (close_windows r targets).latest_source_coverage_gap ≡ r.latest_source_coverage_gap
unfolding close_windows
gap-close_windows r [] = refl
gap-close_windows r (target ∷ rest) =
    gap-close_windows (close_window r target) rest ∙ same (find_window target r.windows) refl
  where
    same :
        (found : Option Token)
        → found ≡ find_window target r.windows
        → (close_window r target).latest_source_coverage_gap ≡ r.latest_source_coverage_gap
    same none e = rw (← e, close_window) refl
    same (some token) e = rw (← e, close_window) refl

gap-rotate :
    (r : Registry) (now : ℤ)
    → (rotate_closed_windows r now).latest_source_coverage_gap ≡ r.latest_source_coverage_gap
unfolding rotate_closed_windows
gap-rotate r now =
    gap-close_windows r (map (λ e. e.0) (retain (λ e. is_closed r.heap now e.1) r.windows))

gap-evict :
    (r : Registry) (ws : List (ObservationTarget × Token))
    → (evict r ws).latest_source_coverage_gap ≡ r.latest_source_coverage_gap
unfolding evict
gap-evict r [] = refl
gap-evict r (e ∷ rest) = refl

gap-make_room :
    (r : Registry) → (make_room r).latest_source_coverage_gap ≡ r.latest_source_coverage_gap
unfolding make_room
gap-make_room r = elim (Bool-cases (leb r.maximum_active (length r.windows))) [
  | inl full ↦ rw full (gap-evict r r.windows)
  | inr room ↦ rw room refl
]

inherit_gap-marked :
    (found : Option SourceCoverageGap) (gap : SourceCoverageGap) (opened_at closes_at : ℤ)
    → found ≡ some gap
    → leb_ℤ opened_at gap.observed_at_unix_ms ≡ true
    → ltb_ℤ gap.observed_at_unix_ms closes_at ≡ true
    → 0 < (inherit_gap found opened_at closes_at new_cells).incomplete_reason
unfolding mark_incomplete code
inherit_gap-marked found gap opened_at closes_at e after before =
    rw (e, after, before) (ground arith)

inherited :
    (r : Registry) (target : ObservationTarget) (mint : String) (opened_at closes_at : ℤ)
    (found : Option Token) (gap : SourceCoverageGap)
    → (return_or_open r target mint opened_at closes_at found).2 ≡ true
    → r.latest_source_coverage_gap (target_source_program target) ≡ some gap
    → leb_ℤ opened_at gap.observed_at_unix_ms ≡ true
    → ltb_ℤ gap.observed_at_unix_ms closes_at ≡ true
    → 0
      < ((return_or_open r target mint opened_at closes_at found).0.heap
          (return_or_open r target mint opened_at closes_at found).1.cell).incomplete_reason
unfolding return_or_open open_window new_token
inherited r target mint opened_at closes_at (some token) gap opened e after before = cc
inherited r target mint opened_at closes_at none gap opened e after before =
    let same : (make_room r).latest_source_coverage_gap (target_source_program target) ≡ some gap =
      ap (λ f. f (target_source_program target)) (gap-make_room r) ∙ e in
    ground (arith, inherit_gap-marked _ gap opened_at closes_at same after before)

-- A window that is newly opened for a target is incomplete from the start when the latest coverage gap
-- of its source was observed inside the window.
pub provision_target-inherited :
    (r : Registry) (target : ObservationTarget) (mint : String) (opened_at : ℤ) (duration_ms : ℕ)
    (gap : SourceCoverageGap)
    → (provision_target r target mint opened_at duration_ms).2 ≡ true
    → r.latest_source_coverage_gap (target_source_program target) ≡ some gap
    → leb_ℤ opened_at gap.observed_at_unix_ms ≡ true
    → ltb_ℤ gap.observed_at_unix_ms (close_time opened_at duration_ms) ≡ true
    → 0
      < ((provision_target r target mint opened_at duration_ms).0.heap
          (provision_target r target mint opened_at duration_ms).1.cell).incomplete_reason
unfolding provision_target
provision_target-inherited r target mint opened_at duration_ms gap opened e after before =
    let rotated = rotate_closed_windows r opened_at in
    inherited rotated target mint opened_at (close_time opened_at duration_ms)
      (open_at rotated opened_at (find_window target rotated.windows)) gap opened
      (ap (λ f. f (target_source_program target)) (gap-rotate r opened_at) ∙ e) after before
