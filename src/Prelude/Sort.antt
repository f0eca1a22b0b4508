-- ===== src/Prelude/Sort.antt =====
-- Rust's stable `sort_by`, as insertion: an element goes before the first one that is not smaller.
pub mod Canonical
pub mod Ascending
use Prim.Native.Nat.{Ordering}
use mathlib.Core.List.{List, [], ◌∷◌}

module _ {ℓ} {A : Type ℓ} (cmp : A → A → Ordering) where
  pub insert_sorted : A → List A → List A
  insert_sorted a [] = a ∷ []
  insert_sorted a (b ∷ l) =
      let later = insert_sorted a l in elim (cmp a b) [ Ordering.gt ↦ b ∷ later | _ ↦ a ∷ (b ∷ l) ]

  unfoldable pub sort_by : List A → List A
  unfolding insert_sorted
  sort_by [] = []
  sort_by (a ∷ l) = insert_sorted a (sort_by l)
