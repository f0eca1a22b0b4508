-- ===== src/Snapshot/Finish/Largest.antt =====
-- The largest wallet of a window holds at least the volume of every wallet, and its share is exact.
use soldisco.Prelude.{
  ℕ, ◌*◌, ◌≤◌, ◌<◌, ◌^◌, ◌≡◌, refl, ◌⊎◌, inl, inr, String, Option, none, some, List, [], ◌∷◌, All,
  ok, arith, true, false, Bool-cases,
}
use soldisco.Snapshot.Checked.{checked_add-eq-ok, u128_width}
use soldisco.Snapshot.ScaledRatio.Exact.{ceil_div}
use soldisco.Snapshot.BasisPoints.{fraction_to_basis_points}
use soldisco.Snapshot.BasisPoints.Share.{fraction_to_basis_points_exact}
use soldisco.Snapshot.Metrics.{WalletMetrics, total_quote_units}
use soldisco.Snapshot.Metrics.Totality.{volume}
use soldisco.Snapshot.Samples.{WalletVolumeShare}
use soldisco.Snapshot.Finish.{exceeds_largest, largest_from}

abbrev Entries : Type 0
Entries = List (String × WalletMetrics)

-- The chosen wallet has at least the volume `v`.
abbrev pub Dominates : Option WalletVolumeShare → ℕ → Type 0
Dominates none v = ⊥
Dominates (some s) v = v ≤ s.quote_volume_units

-- The choice is one of the entries, with its volume.
abbrev pub IsEntry : WalletVolumeShare → Entries → Type 0
IsEntry s [] = ⊥
IsEntry s ((w, m) ∷ l) = ((s.wallet ≡ w) × (s.quote_volume_units ≡ volume m)) ⊎ IsEntry s l

-- The share of the choice is its exact part of the total, in basis points, rounded up.
abbrev pub IsExactShare : ℕ → Option WalletVolumeShare → Type 0
IsExactShare total none = Unit
IsExactShare total (some s) = s.share_bps ≡ ceil_div (s.quote_volume_units * 10000) total

-- What the loop leaves after the entries `l`, from the choice `before`.
pub record IsChoice (total : ℕ) (before : Option WalletVolumeShare) (l : Entries)
    (after : Option WalletVolumeShare) : Type 0 where
  pub dominates_entries : All (λ e. Dominates after (volume e.1)) l
  pub dominates_before : (v : ℕ) → Dominates before v → Dominates after v
  pub exact : IsExactShare total after
  pub chosen : (s : WalletVolumeShare) → after ≡ some s → (before ≡ some s) ⊎ IsEntry s l

abbrev share_of : ℕ → String → WalletMetrics → WalletVolumeShare
share_of total w m = record {
  wallet = w;
  quote_volume_units = volume m;
  share_bps = ceil_div (volume m * 10000) total;
}

module _ (total : ℕ) (before : Option WalletVolumeShare) (w : String) (m : WalletMetrics)
    (l : Entries) (after : Option WalletVolumeShare) where
  IsChoice-replaced :
      exceeds_largest (volume m) before ≡ true
      → IsChoice total (some (share_of total w m)) l after
      → IsChoice total before ((w, m) ∷ l) after
  IsChoice-replaced larger c = record {
    dominates_entries = (c.dominates_before (volume m) (omega arith), c.dominates_entries);
    dominates_before = λ v h. c.dominates_before v (below before larger v h);
    exact = c.exact;
    chosen =
        λ s e. elim (c.chosen s e) [ inl new ↦ inr (inl (ground arith)) | inr old ↦ inr (inr old) ];
  }
    where
      below :
          (b : Option WalletVolumeShare)
          → exceeds_largest (volume m) b ≡ true
          → (v : ℕ) → Dominates b v
          → v ≤ volume m
      below none larger v h = absurd h
      below (some b) larger v h = ground arith

  IsChoice-kept :
      exceeds_largest (volume m) before ≡ false
      → IsChoice total before l after
      → IsChoice total before ((w, m) ∷ l) after
  IsChoice-kept kept c = record {
    dominates_entries = (c.dominates_before (volume m) (above before kept), c.dominates_entries);
    dominates_before = c.dominates_before;
    exact = c.exact;
    chosen = λ s e. elim (c.chosen s e) [ inl old ↦ inl old | inr entry ↦ inr (inr entry) ];
  }
    where
      above :
          (b : Option WalletVolumeShare)
          → exceeds_largest (volume m) b ≡ false
          → Dominates b (volume m)
      above none kept = cc
      above (some b) kept = ground arith

module _ (total : ℕ) (word : total < 2 ^ 128) where
  total_quote_units-eq-ok :
      (m : WalletMetrics) → volume m ≤ total → total_quote_units m ≡ ok (volume m)
  unfolding total_quote_units
  total_quote_units-eq-ok m le = checked_add-eq-ok u128_width _ _ (omega arith)

  share_returned :
      (m : WalletMetrics)
      → (0 < volume m) × (volume m ≤ total)
      → fraction_to_basis_points (volume m) total ≡ ok (ceil_div (volume m * 10000) total)
  share_returned m (positive, le) =
      fraction_to_basis_points_exact (volume m) total (omega arith) word le

  -- Where every entry's volume is a nonzero part of a total below 2^128 and a choice made before has
  -- its exact share, the loop returns a choice that has at least the volume of every entry, is one of
  -- the entries or the choice before, and has its exact share.
  pub largest_from_total :
      (l : Entries) (before : Option WalletVolumeShare)
      → All (λ e. (0 < volume e.1) × (volume e.1 ≤ total)) l
      → IsExactShare total before
      → (after : Option WalletVolumeShare) × (largest_from total before l ≡ ok after)
        × IsChoice total before l after
  unfolding largest_from
  largest_from_total [] before fits exact = (
    before,
    refl,
    record {
      dominates_entries = tt;
      dominates_before = λ v h. h;
      exact = exact;
      chosen = λ s e. inl e;
    },
  )
  largest_from_total ((w, m) ∷ l) before fits exact =
      elim (Bool-cases (exceeds_largest (volume m) before)) [
        | inl larger ↦
            let (after, e, c) = largest_from_total l (some (share_of total w m)) fits.1 refl in
            (
              after,
              rw (total_quote_units-eq-ok m fits.0.1) (rw larger (rw (share_returned m fits.0) e)),
              IsChoice-replaced total before w m l after larger c,
            )
        | inr kept ↦
            let (after, e, c) = largest_from_total l before fits.1 exact in
            (
              after,
              rw (total_quote_units-eq-ok m fits.0.1) (rw kept e),
              IsChoice-kept total before w m l after kept c,
            )
      ]
