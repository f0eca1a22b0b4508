-- ===== src/Window/Registry/Provision.antt =====
-- crates/discovery-engine/src/lib.rs: `provision_target`, which opens a window or returns the open one.
pub mod Capacity
pub mod Inherit
use Prim.Native.Nat.{Ordering}
use soldisco.Prelude.{
  ℕ, ◌+◌, ◌-◌, ◌%◌, ◌^◌, Option, none, some, List, [], ◌∷◌, String, Bool, true, false, ◌&&◌, leb,
  length, if◌then◌else◌,
}
use soldisco.Prelude.Int.{ℤ, pos, sub_ℕ, pos_part, neg_part, leb_ℤ, ltb_ℤ, compare_ℤ}
use soldisco.Prelude.Order.{then_with}
use soldisco.Domain.{MarketIdentity}
use soldisco.Window.Target.{
  ObservationTarget, for_market, compare_target, target_source_program, ObservationWindow,
  capacity_evicted,
}
use soldisco.Window.Cells.{
  Cells, new_cells, is_open_at, confirm, mark_incomplete, cancel_with_reason,
}
use soldisco.Window.Registry.{
  Token, SourceCoverageGap, Registry, write, find_window, remove_window, retain_if_durable,
  rotate_closed_windows,
}

abbrev pub i64_max : ℕ
i64_max = 9223372036854775807

-- `opened_at.saturating_add(i64::try_from(duration_ms).unwrap_or(i64::MAX))`
unfoldable pub close_time : ℤ → ℕ → ℤ
close_time opened_at duration_ms =
    let duration = if leb duration_ms i64_max then duration_ms else i64_max in
    let sum = sub_ℕ (pos_part opened_at + duration) (neg_part opened_at) in
    if leb_ℤ sum (pos i64_max) then sum else pos i64_max

abbrev closes_first : ObservationTarget × Token → ObservationTarget × Token → Bool
closes_first a b =
    elim (then_with (compare_ℤ a.1.window.closes_at_unix_ms b.1.window.closes_at_unix_ms)
      (compare_target a.0 b.0)) [ Ordering.lt ↦ true | Ordering.eq ↦ false | Ordering.gt ↦ false ]

-- `min_by_key` over the close time and the target
unfoldable pub earliest :
    ObservationTarget × Token → List (ObservationTarget × Token) → ObservationTarget × Token
earliest best [] = best
earliest best (e ∷ rest) = earliest (if closes_first e best then e else best) rest

-- The eviction when the registry is full.
unfoldable pub evict : Registry → List (ObservationTarget × Token) → Registry
unfolding earliest
evict r [] = r
evict r (e ∷ rest) =
    let (target, token) = earliest e rest in
    let heap = write r.heap token.cell (cancel_with_reason (r.heap token.cell) capacity_evicted) in
    record r {
      windows = remove_window target r.windows;
      heap = heap;
      retained = retain_if_durable heap r.retained token;
    }

unfoldable pub make_room : Registry → Registry
unfolding evict
make_room r = if leb r.maximum_active (length r.windows) then evict r r.windows else r

-- The gap that a new window inherits, if it was observed inside the window.
abbrev pub inherit_gap : Option SourceCoverageGap → ℤ → ℤ → Cells → Cells
inherit_gap none opened_at closes_at cells = cells
inherit_gap (some gap) opened_at closes_at cells =
    if leb_ℤ opened_at gap.observed_at_unix_ms && ltb_ℤ gap.observed_at_unix_ms closes_at
    then (mark_incomplete cells gap.reason).0
    else cells

unfoldable pub new_token : Registry → ObservationTarget → String → ℤ → ℤ → Token
new_token r target mint opened_at closes_at = record {
  generation = r.next_generation;
  window = record {
    target = target;
    mint = mint;
    opened_at_unix_ms = opened_at;
    closes_at_unix_ms = closes_at;
  };
  cell = r.next_cell;
}

-- Allocating the token and inserting it.
unfoldable pub open_window : Registry → ObservationTarget → String → ℤ → ℤ → Registry × Token
unfolding new_token
open_window r target mint opened_at closes_at =
    let token = new_token r target mint opened_at closes_at in
    let gap = r.latest_source_coverage_gap (target_source_program target) in
    (
      record r {
        next_generation = (r.next_generation + 1) % 2 ^ 64;
        next_cell = r.next_cell + 1;
        heap = write r.heap r.next_cell (inherit_gap gap opened_at closes_at new_cells);
        windows = (target, token) ∷ remove_window target r.windows;
      },
      token,
    )

abbrev open_at : Registry → ℤ → Option Token → Option Token
open_at r now none = none
open_at r now (some token) =
    if is_open_at token.window (r.heap token.cell) now then some token else none

-- The rest of `provision_target` after the lookup: an open window is returned as it is.
unfoldable pub return_or_open :
    Registry → ObservationTarget → String → ℤ → ℤ → Option Token → Registry × Token × Bool
unfolding make_room open_window
return_or_open r target mint opened_at closes_at (some existing) = (r, existing, false)
return_or_open r target mint opened_at closes_at none =
    let (opened, token) = open_window (make_room r) target mint opened_at closes_at in
    (opened, token, true)

-- The registry, the token, and whether it is newly opened.
unfoldable pub provision_target :
    Registry → ObservationTarget → String → ℤ → ℕ → Registry × Token × Bool
unfolding return_or_open close_time
provision_target r target mint opened_at duration_ms =
    let rotated = rotate_closed_windows r opened_at in
    return_or_open rotated target mint opened_at (close_time opened_at duration_ms)
      (open_at rotated opened_at (find_window target rotated.windows))

-- The confirmation of a provisioned token.
abbrev confirm_provisioned : Registry × Token × Bool → Registry × Option ObservationWindow
confirm_provisioned (r, token, newly_opened) =
    (record r { heap = write r.heap token.cell (confirm (r.heap token.cell)).0 }, some token.window)

unfoldable pub open_market : Registry → MarketIdentity → ℤ → ℕ → Registry × Option ObservationWindow
unfolding provision_target for_market confirm
open_market r market opened_at duration_ms = elim (for_market market) [
  | none ↦ (r, none)
  | some target ↦ confirm_provisioned (provision_target r target market.mint opened_at duration_ms)
]
