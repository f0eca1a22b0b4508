-- ===== src/Window/Registry/Cancel/Frozen.antt =====
-- Cancellation leaves a claimed window as it was claimed (crates/discovery-engine/src/lib.rs).
use soldisco.Prelude.{
  ℕ, ◌+◌, ◌≡◌, ◌∙◌, ◌≢◌, refl, ap, sym, subst, ◌&&◌, List, [], ◌∷◌, map, retain, some, Bool, true,
  false, All, Option-cases, Bool-cases, if◌then◌else◌, inl, inr, arith,
}
use soldisco.Window.Target.{ObservationTarget, target_eq, WindowIncompleteReason}
use soldisco.Window.Cells.{Cells, was_confirmed, cancel_with_reason}
use soldisco.Window.Registry.{Token, Registry, write, find_window, remove_window}
use soldisco.Window.Registry.Cancel.{
  is_cancellable, cancel_token, cancel_target, cancel_active, cancel_retained,
  cancel_confirmed_matching,
}

-- No active window has the cells.
abbrev pub IsInactive : ℕ → List (ObservationTarget × Token) → Type 0
IsInactive cell = All (λ e. e.1.cell ≢ cell)

remove_window-IsInactive :
    (cell : ℕ) (target : ObservationTarget) (ws : List (ObservationTarget × Token))
    → IsInactive cell ws
    → IsInactive cell (remove_window target ws)
remove_window-IsInactive cell target [] h = h
remove_window-IsInactive cell target ((key, token) ∷ rest) h =
    kept (target_eq key target) (remove_window-IsInactive cell target rest h.1)
  where
    kept :
        (b : Bool)
        → IsInactive cell (remove_window target rest)
        → IsInactive cell
            (if b then remove_window target rest else (key, token) ∷ remove_window target rest)
    kept true r = r
    kept false r = (h.0, r)

find_window-IsInactive :
    (cell : ℕ) (target : ObservationTarget) (ws : List (ObservationTarget × Token)) (token : Token)
    → IsInactive cell ws
    → find_window target ws ≡ some token
    → token.cell ≢ cell
find_window-IsInactive cell target [] token h e = ground arith
find_window-IsInactive cell target ((key, first) ∷ rest) token h e =
    ground (arith, h.0, find_window-IsInactive cell target rest token h.1)

write_other :
    (heap : ℕ → Cells) (written cell : ℕ) (self : Cells)
    → written ≢ cell
    → write heap written self cell ≡ heap cell
write_other heap written cell self other = ground arith

cancel_token-frozen :
    (cell : ℕ) (reason : WindowIncompleteReason) (r : Registry) (n : ℕ) (token : Token)
    → token.cell ≢ cell
    → (cancel_token reason r n token).0.heap cell ≡ r.heap cell
unfolding cancel_token
cancel_token-frozen cell reason r n token other =
    elim (Bool-cases (was_confirmed (r.heap token.cell))) [
      | inl confirmed ↦ rw confirmed (write_other r.heap token.cell cell _ other)
      | inr pending ↦ rw pending (write_other r.heap token.cell cell _ other)
    ]

windows-cancel_token :
    (reason : WindowIncompleteReason) (r : Registry) (n : ℕ) (token : Token)
    → (cancel_token reason r n token).0.windows ≡ r.windows
unfolding cancel_token
windows-cancel_token reason r n token = elim (Bool-cases (was_confirmed (r.heap token.cell))) [
  | inl confirmed ↦ rw confirmed refl
  | inr pending ↦ rw pending refl
]

-- What a step of the loop over the active windows keeps.
record KeepsFrozen (cell : ℕ) (before after : Registry) : Type 0 where
  pub inactive : IsInactive cell after.windows
  pub frozen : after.heap cell ≡ before.heap cell

cancel_target-KeepsFrozen :
    (cell : ℕ) (reason : WindowIncompleteReason) (r : Registry) (n : ℕ) (target : ObservationTarget)
    → IsInactive cell r.windows
    → KeepsFrozen cell r (cancel_target reason r n target).0
unfolding cancel_target
cancel_target-KeepsFrozen cell reason r n target h =
    elim (Option-cases (find_window target r.windows)) [
      | inl missing ↦ rw (missing, cancel_target) (record { inactive = h; frozen = refl })
      | inr (token, found) ↦ rw (found, cancel_target) (removed token found)
    ]
  where
    removed :
        (token : Token)
        → find_window target r.windows ≡ some token
        → KeepsFrozen cell r
            (cancel_token reason (record r { windows = remove_window target r.windows }) n token).0
    removed token found = record {
      inactive =
          subst (IsInactive cell)
            (sym (
              windows-cancel_token reason (record r { windows = remove_window target r.windows }) n
                token))
            (remove_window-IsInactive cell target r.windows h);
      frozen =
          cancel_token-frozen cell reason (record r { windows = remove_window target r.windows }) n
            token (find_window-IsInactive cell target r.windows token h found);
    }

cancel_active-KeepsFrozen :
    (cell : ℕ) (reason : WindowIncompleteReason) (r : Registry) (n : ℕ)
    (targets : List ObservationTarget)
    → IsInactive cell r.windows
    → KeepsFrozen cell r (cancel_active reason r n targets).0
unfolding cancel_active
cancel_active-KeepsFrozen cell reason r n [] h = record { inactive = h; frozen = refl }
cancel_active-KeepsFrozen cell reason r n (target ∷ rest) h =
    let one = cancel_target-KeepsFrozen cell reason r n target h in
    let others =
      cancel_active-KeepsFrozen cell reason (cancel_target reason r n target).0
        (cancel_target reason r n target).1 rest one.inactive in
    record { inactive = others.inactive; frozen = others.frozen ∙ one.frozen }

-- The cells of the first retained token, which change only when it is neither claimed nor finalized.
cancel_one-frozen :
    (b : Bool) (heap : ℕ → Cells) (cell written : ℕ) (self : Cells)
    → (heap cell).finalization_claimed ≡ true
    → (if b && is_cancellable (heap written) then write heap written self else heap) cell
      ≡ heap cell
cancel_one-frozen b heap cell written self claimed = ground arith

cancel_retained-frozen :
    (matches : ObservationTarget → Bool) (reason : WindowIncompleteReason) (heap : ℕ → Cells)
    (n : ℕ) (ts : List Token) (cell : ℕ)
    → (heap cell).finalization_claimed ≡ true
    → (cancel_retained matches reason heap n ts).0 cell ≡ heap cell
unfolding cancel_retained
cancel_retained-frozen matches reason heap n [] cell claimed = refl
cancel_retained-frozen matches reason heap n (t ∷ ts) cell claimed =
    let self = cancel_with_reason (heap t.cell) reason in
    let chosen = matches t.window.target && is_cancellable (heap t.cell) in
    let same = cancel_one-frozen (matches t.window.target) heap cell t.cell self claimed in
    cancel_retained-frozen matches reason (if chosen then write heap t.cell self else heap)
      (if chosen then n + 1 else n) ts cell (ap (λ c. c.finalization_claimed) same ∙ claimed)
    ∙ same

-- A cancellation of confirmed windows, of all sources or of one, leaves the cells of a claimed window
-- unchanged when no active window shares them.
pub cancel_confirmed_matching-frozen :
    (r : Registry) (reason : WindowIncompleteReason) (matches : ObservationTarget → Bool) (cell : ℕ)
    → IsInactive cell r.windows
    → (r.heap cell).finalization_claimed ≡ true
    → (cancel_confirmed_matching r reason matches).0.heap cell ≡ r.heap cell
unfolding cancel_confirmed_matching
cancel_confirmed_matching-frozen r reason matches cell inactive claimed =
    let targets = retain matches (map (λ e. e.0) r.windows) in
    let kept = cancel_active-KeepsFrozen cell reason r 0 targets inactive in
    let (active, cancelled) = cancel_active reason r 0 targets in
    cancel_retained-frozen matches reason active.heap cancelled active.retained cell
      (ap (λ c. c.finalization_claimed) kept.frozen ∙ claimed)
    ∙ kept.frozen
