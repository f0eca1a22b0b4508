-- ===== src/Window/Registry/Provision/Capacity.antt =====
-- The registry never holds more windows than its capacity (crates/discovery-engine/src/lib.rs).
use soldisco.Prelude.{
  ℕ, suc, ◌≤◌, ◌<◌, ◌≡◌, ◌∙◌, ◌⊎◌, refl, subst, inl, inr, Option, none, some, List, [], ◌∷◌, String,
  Bool, true, false, length, map, retain, arith, leb, if◌then◌else◌, Bool-cases, Option-cases,
}
use soldisco.Prelude.Int.{ℤ}
use soldisco.Window.Target.{ObservationTarget, target_eq, target_eq_iff}
use soldisco.Window.Registry.{
  Token, Registry, find_window, remove_window, is_closed, close_window, close_windows,
  rotate_closed_windows,
}
use soldisco.Window.Registry.Provision.{
  earliest, evict, make_room, open_window, open_at, provision_target, return_or_open, closes_first,
  close_time,
}

abbrev Windows : Type 0
Windows = List (ObservationTarget × Token)

length-remove_window :
    (target : ObservationTarget) (ws : Windows) → length (remove_window target ws) ≤ length ws
length-remove_window target [] = omega arith
length-remove_window target ((key, token) ∷ ws) = ground (arith, length-remove_window target ws)

-- The target is the key of some window.
abbrev Holds : ObservationTarget → Windows → Type 0
Holds target [] = ⊥
Holds target ((key, token) ∷ ws) = (target_eq key target ≡ true) ⊎ Holds target ws

length-remove_window_lt :
    (target : ObservationTarget) (ws : Windows)
    → Holds target ws
    → length (remove_window target ws) < length ws
length-remove_window_lt target [] h = absurd h
length-remove_window_lt target ((key, token) ∷ ws) (inl here) =
    rw here (omega (arith, length-remove_window target ws))
length-remove_window_lt target ((key, token) ∷ ws) (inr later) =
    ground (arith, length-remove_window_lt target ws later)

earliest-Holds :
    (best : ObservationTarget × Token) (ws : Windows) → Holds (earliest best ws).0 (best ∷ ws)
unfolding earliest
earliest-Holds best [] = inl ((target_eq_iff best.0 best.0).1 refl)
earliest-Holds best (e ∷ ws) =
    let c = if closes_first e best then e else best in
    keep c (chosen (closes_first e best)) (earliest-Holds c ws)
  where
    chosen : (b : Bool) → ((if b then e else best) ≡ e) ⊎ ((if b then e else best) ≡ best)
    chosen true = inl refl
    chosen false = inr refl

    keep :
        (c : ObservationTarget × Token)
        → (c ≡ e) ⊎ (c ≡ best)
        → Holds (earliest c ws).0 (c ∷ ws)
        → Holds (earliest c ws).0 (best ∷ (e ∷ ws))
    keep c which (inr later) = inr (inr later)
    keep c (inl same) (inl here) =
        inr (inl (subst (λ x. target_eq x.0 (earliest c ws).0 ≡ true) same here))
    keep c (inr same) (inl here) =
        inl (subst (λ x. target_eq x.0 (earliest c ws).0 ≡ true) same here)

length-close_windows :
    (r : Registry) (targets : List ObservationTarget)
    → length (close_windows r targets).windows ≤ length r.windows
unfolding close_windows
length-close_windows r [] = omega arith
length-close_windows r (target ∷ rest) =
    omega (arith, length-close_windows (close_window r target) rest, one_less r target)
  where
    one_less :
        (r : Registry) (target : ObservationTarget)
        → length (close_window r target).windows ≤ length r.windows
    one_less r target = elim (Option-cases (find_window target r.windows)) [
      | inl missing ↦ rw (missing, close_window) (omega arith)
      | inr (token, found) ↦ rw (found, close_window) (length-remove_window target r.windows)
    ]

length-rotate :
    (r : Registry) (now : ℤ) → length (rotate_closed_windows r now).windows ≤ length r.windows
unfolding rotate_closed_windows
length-rotate r now =
    length-close_windows r (map (λ e. e.0) (retain (λ e. is_closed r.heap now e.1) r.windows))

capacity-close_windows :
    (r : Registry) (targets : List ObservationTarget)
    → (close_windows r targets).maximum_active ≡ r.maximum_active
unfolding close_windows
capacity-close_windows r [] = refl
capacity-close_windows r (target ∷ rest) =
    capacity-close_windows (close_window r target) rest ∙ same r target
  where
    same :
        (r : Registry) (target : ObservationTarget)
        → (close_window r target).maximum_active ≡ r.maximum_active
    same r target = ground arith

capacity-rotate :
    (r : Registry) (now : ℤ) → (rotate_closed_windows r now).maximum_active ≡ r.maximum_active
unfolding rotate_closed_windows
capacity-rotate r now =
    capacity-close_windows r (map (λ e. e.0) (retain (λ e. is_closed r.heap now e.1) r.windows))

evict_room :
    (r : Registry) (ws : Windows)
    → ws ≡ r.windows
    → 0 < r.maximum_active
    → length r.windows ≤ r.maximum_active
    → length (evict r ws).windows < r.maximum_active
unfolding evict
evict_room r [] e positive within = rw (← e) positive
evict_room r (w ∷ ws) e positive within =
    let held = subst (Holds (earliest w ws).0) e (earliest-Holds w ws) in
    omega (arith, length-remove_window_lt (earliest w ws).0 r.windows held)

-- Eviction leaves a free place in a registry with a positive capacity.
length-make_room :
    (r : Registry)
    → 0 < r.maximum_active
    → length r.windows ≤ r.maximum_active
    → length (make_room r).windows < r.maximum_active
unfolding make_room
length-make_room r positive within = elim (Bool-cases (leb r.maximum_active (length r.windows))) [
  | inl full ↦ rw full (evict_room r r.windows refl positive within)
  | inr room ↦ rw room (ground arith)
]

length-open_window :
    (r : Registry) (target : ObservationTarget) (mint : String) (opened_at closes_at : ℤ)
    → length (open_window r target mint opened_at closes_at).0.windows ≤ suc (length r.windows)
unfolding open_window
length-open_window r target mint opened_at closes_at =
    omega (arith, length-remove_window target r.windows)

length-return_or_open :
    (r : Registry) (target : ObservationTarget) (mint : String) (opened_at closes_at : ℤ)
    (found : Option Token)
    → 0 < r.maximum_active
    → length r.windows ≤ r.maximum_active
    → length (return_or_open r target mint opened_at closes_at found).0.windows ≤ r.maximum_active
unfolding return_or_open
length-return_or_open r target mint opened_at closes_at (some existing) positive within = within
length-return_or_open r target mint opened_at closes_at none positive within = omega (
  arith,
  length-make_room r positive within,
  length-open_window (make_room r) target mint opened_at closes_at,
)

-- A registry with a positive capacity that is kept stays within it when a target is provisioned.
pub provision_target_within :
    (r : Registry) (target : ObservationTarget) (mint : String) (opened_at : ℤ) (duration_ms : ℕ)
    → 0 < r.maximum_active
    → length r.windows ≤ r.maximum_active
    → length (provision_target r target mint opened_at duration_ms).0.windows ≤ r.maximum_active
unfolding provision_target
provision_target_within r target mint opened_at duration_ms positive within =
    let rotated = rotate_closed_windows r opened_at in
    let same = capacity-rotate r opened_at in
    let kept =
      length-return_or_open rotated target mint opened_at (close_time opened_at duration_ms)
        (open_at rotated opened_at (find_window target rotated.windows)) (rw same positive)
        (omega (arith, length-rotate r opened_at, within, same)) in
    omega (arith, kept, same)
