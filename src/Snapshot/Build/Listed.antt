-- ===== src/Snapshot/Build/Listed.antt =====
-- The observations that a snapshot of crates/discovery-engine/src/snapshot.rs lists, by its market and its
-- half-open window, and their order.
use Prim.Native.Nat.{Ordering, compare}
use Prim.Native.String.{compare as compare_text}
use mathlib.Core.List.{Permᴰ}
use text.Mathlib.TextEquality.{path_by_compare}
use soldisco.Prelude.{
  ℕ, Option, none, some, List, [], ◌∷◌, map, retain, ok, ◌≡◌, ◌≢◌, ◌⊎◌, ◌<◌, ◌≤◌, inl, inr, refl,
  Bool-cases, true, arith,
}
use soldisco.Prelude.Int.{ℤ, ◌≤ℤ◌, ◌<ℤ◌, compare_ℤ, eq_of_parts}
use soldisco.Prelude.Order.{then_with, compare_option}
use soldisco.Prelude.Sort.{sort_by}
use soldisco.Prelude.Sort.Ascending.{Ascending, sort_by_perm, sort_by-Ascending}
use soldisco.Domain.{MarketIdentity, market_eq_iff, NormalizedObservation, source_program_rank}
use soldisco.Snapshot.Samples.{SnapshotCompleteness, MarketWindowSnapshot}
use soldisco.Snapshot.Build.{observation_order, matches_window, build_market_window_snapshot}
use soldisco.Snapshot.Build.Deterministic.{observation_order-IsWeakOrder}
use soldisco.Snapshot.Build.Keys.{IsDistinct, build_market_window_snapshot-ListsKeys}

module _ (market : MarketIdentity) (opened_at closes_at : ℤ) where
  -- An observation of the market that was received from the opening on and before the close.
  pub record InWindow (o : NormalizedObservation) : Type 0 where
    pub own_market : o.market ≡ market
    pub since_opening : opened_at ≤ℤ o.received_time_unix_ms
    pub before_close : o.received_time_unix_ms <ℤ closes_at

  -- The observations of a list that are in the window.
  pub data Chooses : List NormalizedObservation → List NormalizedObservation → Type 0 where
    nothing : Chooses [] []
    takes :
        {os chosen : List NormalizedObservation} (o : NormalizedObservation)
        → InWindow o
        → Chooses os chosen
        → Chooses (o ∷ os) (o ∷ chosen)
    skips :
        {os chosen : List NormalizedObservation} (o : NormalizedObservation)
        → ¬ InWindow o
        → Chooses os chosen
        → Chooses (o ∷ os) chosen

  matches_window-InWindow :
      (o : NormalizedObservation) → matches_window market opened_at closes_at o ≡ true → InWindow o
  unfolding matches_window
  matches_window-InWindow o h = record {
    own_market = (market_eq_iff o.market market).0 (ground arith);
    since_opening = ground arith;
    before_close = ground arith;
  }

  InWindow-matches_window :
      (o : NormalizedObservation) → InWindow o → matches_window market opened_at closes_at o ≡ true
  unfolding matches_window
  InWindow-matches_window o w =
      rw ((market_eq_iff o.market market).1 w.own_market)
        (ground (arith, w.since_opening, w.before_close))

  retain-Chooses :
      (os : List NormalizedObservation)
      → Chooses os (retain (matches_window market opened_at closes_at) os)
  retain-Chooses [] = nothing
  retain-Chooses (o ∷ os) = elim (Bool-cases (matches_window market opened_at closes_at o)) [
    | inl inside ↦ rw inside (takes o (matches_window-InWindow o inside) (retain-Chooses os))
    | inr outside ↦ rw outside (skips o (λ w. cc (InWindow-matches_window o w)) (retain-Chooses os))
  ]

-- No transaction index comes before every index.
abbrev pub OptionBelow : Option ℕ → Option ℕ → Type 0
OptionBelow none none = ⊥
OptionBelow none (some b) = Unit
OptionBelow (some a) none = ⊥
OptionBelow (some a) (some b) = a < b

-- The first of two places in which observations differ decides.
abbrev pub Lex : Type 0 → Type 0 → Type 0 → Type 0
Lex less same rest = less ⊎ (same × rest)

-- By receipt, slot, transaction, signature, instruction, event and program.
abbrev pub Precedes : NormalizedObservation → NormalizedObservation → Type 0
Precedes a b =
    Lex (a.received_time_unix_ms <ℤ b.received_time_unix_ms)
      (a.received_time_unix_ms ≡ b.received_time_unix_ms)
      (Lex (a.key.slot < b.key.slot) (a.key.slot ≡ b.key.slot) (
        Lex (OptionBelow a.key.transaction_index b.key.transaction_index)
          (a.key.transaction_index ≡ b.key.transaction_index)
          (Lex (compare_text a.key.signature b.key.signature ≡ Ordering.lt)
            (a.key.signature ≡ b.key.signature)
            (Lex (a.key.instruction_index < b.key.instruction_index)
              (a.key.instruction_index ≡ b.key.instruction_index)
              (Lex (a.key.event_index < b.key.event_index) (a.key.event_index ≡ b.key.event_index)
                (source_program_rank a.key.program ≤ source_program_rank b.key.program))))))

lex_of :
    {less same rest : Type 0} (o later : Ordering)
    → (o ≡ Ordering.lt → less)
    → (o ≡ Ordering.eq → same)
    → (later ≢ Ordering.gt → rest)
    → then_with o later ≢ Ordering.gt
    → Lex less same rest
lex_of Ordering.lt later f g k h = inl (f refl)
lex_of Ordering.eq later f g k h = inr (g refl, k h)
lex_of Ordering.gt later f g k h = absurd (h refl)

option_below : (a b : Option ℕ) → compare_option a b ≡ Ordering.lt → OptionBelow a b
option_below none none h = cc
option_below none (some b) h = tt
option_below (some a) none h = cc
option_below (some a) (some b) h = ground arith

order-Precedes : (a b : NormalizedObservation) → observation_order a b ≢ Ordering.gt → Precedes a b
order-Precedes a b =
    lex_of (compare_ℤ a.received_time_unix_ms b.received_time_unix_ms) _ (λ e. ground arith)
      (λ e. eq_of_parts _ _ (ground arith))
      (lex_of (compare a.key.slot b.key.slot) _ (λ e. ground arith) (λ e. ground arith)
        (lex_of (compare_option a.key.transaction_index b.key.transaction_index) _
          (option_below _ _) (λ e. ground arith)
          (lex_of (compare_text a.key.signature b.key.signature) _ (λ e. e) (path_by_compare _ _)
            (lex_of (compare a.key.instruction_index b.key.instruction_index) _ (λ e. ground arith)
              (λ e. ground arith)
              (lex_of (compare a.key.event_index b.key.event_index) _ (λ e. ground arith)
                (λ e. ground arith) (λ h. ground arith))))))

greater-Precedes :
    (a b : NormalizedObservation) → observation_order a b ≡ Ordering.gt → Precedes b a
greater-Precedes a b e =
    order-Precedes b a (λ g. ground (arith, observation_order-IsWeakOrder.flips a b))

-- What a snapshot lists: `listed` are the observations in the window, in their order.
pub record ListsWindow (market : MarketIdentity) (opened_at closes_at : ℤ)
    (observations : List NormalizedObservation) (snapshot : MarketWindowSnapshot) : Type 0 where
  pub chosen : List NormalizedObservation
  pub listed : List NormalizedObservation
  pub in_window : Chooses market opened_at closes_at observations chosen
  pub same_observations : Permᴰ listed chosen
  pub in_order : Ascending Precedes listed
  pub keys_listed : snapshot.observation_keys ≡ map (λ o. o.key) listed
  pub distinct_keys : IsDistinct snapshot.observation_keys

-- A snapshot that is built lists the keys of exactly the observations of its market that were received
-- from the opening of the window on and before its close. No key stands twice, and the keys stand in the
-- order of receipt, then of slot, transaction, signature, instruction, event and program.
pub build_market_window_snapshot-ListsWindow :
    (market : MarketIdentity) (opened_at closes_at : ℤ) (completeness : SnapshotCompleteness)
    (observations : List NormalizedObservation) (s : MarketWindowSnapshot)
    → build_market_window_snapshot market opened_at closes_at completeness observations ≡ ok s
    → ListsWindow market opened_at closes_at observations s
build_market_window_snapshot-ListsWindow market opened_at closes_at completeness observations s h =
    let chosen = retain (matches_window market opened_at closes_at) observations in
    let lists =
      build_market_window_snapshot-ListsKeys market opened_at closes_at completeness observations s
        h in
    record {
      chosen = chosen;
      listed = sort_by observation_order chosen;
      in_window = retain-Chooses market opened_at closes_at observations;
      same_observations = sort_by_perm observation_order chosen;
      in_order =
          sort_by-Ascending observation_order Precedes order-Precedes greater-Precedes chosen;
      keys_listed = lists.listed;
      distinct_keys = lists.distinct_keys;
    }
