-- ===== src/Snapshot/Build/Deterministic.antt =====
-- A window snapshot does not depend on the order in which its observations are listed.
use Prim.Native.Nat.{Ordering, compare}
use Prim.Native.String.{compare as compare_text}
use mathlib.Core.List.{Permᴰ}
use text.Mathlib.TextEquality.{path_by_compare}
use soldisco.Prelude.{List, ◌≡◌, sym, ◌∙◌, [], ◌∷◌, arith, All, retain, Bool, Bool-cases, inl, inr}
use soldisco.Prelude.Int.{ℤ, compare_ℤ}
use soldisco.Prelude.Order.{
  then_with, compare_option, IsWeakOrder, then_with-IsWeakOrder, on-IsWeakOrder,
  compare_ℕ-IsWeakOrder, compare_ℤ-IsWeakOrder, compare_option-IsWeakOrder,
  compare_text-IsWeakOrder,
}
use soldisco.Prelude.Sort.Canonical.{retain-perm, sort_by-perm}
use soldisco.Domain.{MarketIdentity, NormalizedObservation, SourceProgram, source_program_rank}
use soldisco.Snapshot.Samples.{SnapshotCompleteness}
use soldisco.Snapshot.Build.{observation_order, matches_window, build_market_window_snapshot}

abbrev Comparison : Type 0
Comparison = NormalizedObservation → NormalizedObservation → Ordering

-- The comparisons that `observation_order` composes, from the last one on.
abbrev by_program : Comparison
by_program a b = compare (source_program_rank a.key.program) (source_program_rank b.key.program)

abbrev by_event : Comparison
by_event a b = then_with (compare a.key.event_index b.key.event_index) (by_program a b)

abbrev by_instruction : Comparison
by_instruction a b =
    then_with (compare a.key.instruction_index b.key.instruction_index) (by_event a b)

abbrev by_signature : Comparison
by_signature a b = then_with (compare_text a.key.signature b.key.signature) (by_instruction a b)

abbrev by_transaction : Comparison
by_transaction a b =
    then_with (compare_option a.key.transaction_index b.key.transaction_index) (by_signature a b)

abbrev by_slot : Comparison
by_slot a b = then_with (compare a.key.slot b.key.slot) (by_transaction a b)

by_instruction-IsWeakOrder : IsWeakOrder by_instruction
by_instruction-IsWeakOrder =
    then_with-IsWeakOrder (λ a b. compare a.key.instruction_index b.key.instruction_index) by_event
      (on-IsWeakOrder (λ a. a.key.instruction_index) compare compare_ℕ-IsWeakOrder)
      (then_with-IsWeakOrder (λ a b. compare a.key.event_index b.key.event_index) by_program
        (on-IsWeakOrder (λ a. a.key.event_index) compare compare_ℕ-IsWeakOrder)
        (on-IsWeakOrder (λ a. source_program_rank a.key.program) compare compare_ℕ-IsWeakOrder))

by_transaction-IsWeakOrder : IsWeakOrder by_transaction
by_transaction-IsWeakOrder =
    then_with-IsWeakOrder (λ a b. compare_option a.key.transaction_index b.key.transaction_index)
      by_signature
      (on-IsWeakOrder (λ a. a.key.transaction_index) compare_option compare_option-IsWeakOrder)
      (then_with-IsWeakOrder (λ a b. compare_text a.key.signature b.key.signature) by_instruction
        (on-IsWeakOrder (λ a. a.key.signature) compare_text compare_text-IsWeakOrder)
        by_instruction-IsWeakOrder)

pub observation_order-IsWeakOrder : IsWeakOrder observation_order
observation_order-IsWeakOrder =
    then_with-IsWeakOrder (λ a b. compare_ℤ a.received_time_unix_ms b.received_time_unix_ms) by_slot
      (on-IsWeakOrder (λ a. a.received_time_unix_ms) compare_ℤ compare_ℤ-IsWeakOrder)
      (then_with-IsWeakOrder (λ a b. compare a.key.slot b.key.slot) by_transaction
        (on-IsWeakOrder (λ a. a.key.slot) compare compare_ℕ-IsWeakOrder) by_transaction-IsWeakOrder)

rank_equal :
    (p q : SourceProgram)
    → compare (source_program_rank p) (source_program_rank q) ≡ Ordering.eq
    → p ≡ q
rank_equal p q h = ground arith

-- Observations of one network that the order does not tell apart have one key.
order-eq-key :
    (a b : NormalizedObservation)
    → a.key.network ≡ b.key.network
    → observation_order a b ≡ Ordering.eq
    → a.key ≡ b.key
order-eq-key a b network e =
    ground (
      arith,
      path_by_compare a.key.signature b.key.signature,
      rank_equal a.key.program b.key.program,
    )

All-retain {ℓ κ} :
    {A : Type ℓ} (P : A → Type κ) (test : A → Bool) (l : List A) → All P l → All P (retain test l)
All-retain P test [] h = tt
All-retain P test (a ∷ l) h = elim (Bool-cases (test a)) [
  | inl kept ↦ rw (kept, All) (h.0, All-retain P test l h.1)
  | inr dropped ↦ rw (dropped, All) (All-retain P test l h.1)
]

-- If a key identifies a stored observation, and the observations carry the market's network in their
-- keys, then every order of listing them builds one snapshot, or fails with one error.
pub snapshot_order_independent :
    (Stored : NormalizedObservation → Type 0)
    → ((a b : NormalizedObservation) → Stored a → Stored b → a.key ≡ b.key → a ≡ b)
    → (market : MarketIdentity) (opened_at closes_at : ℤ) (completeness : SnapshotCompleteness)
      {xs ys : List NormalizedObservation}
    → All (λ a. Stored a × (a.key.network ≡ market.network)) xs
    → Permᴰ xs ys
    → build_market_window_snapshot market opened_at closes_at completeness xs
      ≡ build_market_window_snapshot market opened_at closes_at completeness ys
unfolding build_market_window_snapshot
snapshot_order_independent Stored identified market opened_at closes_at completeness {xs} stored p =
    let test = matches_window market opened_at closes_at in
    let sorted =
      sort_by-perm observation_order observation_order-IsWeakOrder
        (λ a. Stored a × (a.key.network ≡ market.network))
        (λ a b ha hb e. identified a b ha.0 hb.0 (order-eq-key a b (ha.1 ∙ sym hb.1) e))
        (retain-perm test p)
        (All-retain (λ a. Stored a × (a.key.network ≡ market.network)) test xs stored) in
    rw sorted
