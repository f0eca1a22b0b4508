-- ===== src/Window/Registry.antt =====
-- crates/discovery-engine/src/lib.rs: the state of the window registry. A token is a generation, a
-- window and the address of its shared cells; the registry carries the heap of cells. The hash map of
-- windows is an association list whose order stands for one order of iteration, and the maps by
-- source program are functions. A method runs under the registry's lock, as one step.
pub mod Provision
pub mod Events
pub mod Finalize
pub mod Cancel
use soldisco.Prelude.{
  ℕ, ◌+◌, ◌≡◌, ◌⊎◌, Option, none, some, List, [], ◌∷◌, ◌++◌, map, retain, Bool, true, false, not,
  ◌&&◌, ◌||◌, ◌==◌, if◌then◌else◌,
}
use soldisco.Prelude.Int.{ℤ, leb_ℤ}
use soldisco.Domain.{SourceProgram, source_program_rank}
use soldisco.Window.Target.{ObservationTarget, target_eq, ObservationWindow, WindowIncompleteReason}
use soldisco.Window.Cells.{Cells, new_cells, is_open_at, was_confirmed}

pub record Token : Type 0 where
  pub generation : ℕ  -- u64
  pub window : ObservationWindow
  pub cell : ℕ

-- The token stands in the list.
abbrev pub IsIn : Token → List Token → Type 0
IsIn t [] = ⊥
IsIn t (u ∷ rest) = (t ≡ u) ⊎ IsIn t rest

pub record SourceCoverageGap : Type 0 where
  pub observed_at_unix_ms : ℤ
  pub reason : WindowIncompleteReason

pub record Registry : Type 0 where
  pub maximum_active : ℕ
  pub next_generation : ℕ
  pub windows : List (ObservationTarget × Token)
  pub retained : List Token
  pub latest_source_coverage_gap : SourceProgram → Option SourceCoverageGap
  pub latest_source_progress : SourceProgram → Option ℤ
  pub heap : ℕ → Cells
  pub next_cell : ℕ

-- ObservationWindowRegistry::new; a capacity of 0 panics there
abbrev pub new_registry : ℕ → Registry
new_registry maximum_active = record {
  maximum_active = maximum_active;
  next_generation = 0;
  windows = [];
  retained = [];
  latest_source_coverage_gap = λ source. none;
  latest_source_progress = λ source. none;
  heap = λ cell. new_cells;
  next_cell = 0;
}

abbrev pub write : (ℕ → Cells) → ℕ → Cells → ℕ → Cells
write heap cell cells other = if other == cell then cells else heap other

abbrev pub source_eq : SourceProgram → SourceProgram → Bool
source_eq a b = source_program_rank a == source_program_rank b

abbrev pub find_window : ObservationTarget → List (ObservationTarget × Token) → Option Token
find_window target [] = none
find_window target ((key, token) ∷ rest) =
    if target_eq key target then some token else find_window target rest

abbrev pub remove_window :
    ObservationTarget → List (ObservationTarget × Token) → List (ObservationTarget × Token)
remove_window target [] = []
remove_window target ((key, token) ∷ rest) =
    let others = remove_window target rest in
    if target_eq key target then others else (key, token) ∷ others

-- `retain_if_durable`
abbrev pub retain_if_durable : (ℕ → Cells) → List Token → Token → List Token
retain_if_durable heap retained token =
    if was_confirmed (heap token.cell) && not (heap token.cell).finalized
    then retained ++ (token ∷ [])
    else retained

abbrev pub is_closed : (ℕ → Cells) → ℤ → Token → Bool
is_closed heap now token =
    not (is_open_at token.window (heap token.cell) now) || leb_ℤ token.window.closes_at_unix_ms now

-- The body of the loop of `rotate_closed_windows`.
unfoldable pub close_window : Registry → ObservationTarget → Registry
close_window r target = elim (find_window target r.windows) [
  | none ↦ r
  | some token ↦ record r {
    windows = remove_window target r.windows;
    retained = retain_if_durable r.heap r.retained token;
  }
]

unfoldable pub close_windows : Registry → List ObservationTarget → Registry
unfolding close_window
close_windows r [] = r
close_windows r (target ∷ rest) = close_windows (close_window r target) rest

unfoldable pub rotate_closed_windows : Registry → ℤ → Registry
unfolding close_windows
rotate_closed_windows r now =
    close_windows r (map (λ e. e.0) (retain (λ e. is_closed r.heap now e.1) r.windows))
