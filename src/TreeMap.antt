-- ===== src/TreeMap.antt =====
-- The BTreeMap and BTreeSet with text keys that crates/discovery-engine/src/snapshot.rs uses: the
-- entries in the order of their keys, each key once. A set is a map into the unit type.
pub mod Laws
use Prim.Native.String.{compare as compare_text}
use soldisco.Prelude.{ℕ, String, Ordering, Option, none, some, List, [], ◌∷◌, ◌≡◌, length, map, All}
use text.Mathlib.Text.{◌==◌}
use soldisco.Prelude.{if◌then◌else◌}

pub record TreeMap {ℓ} (V : Type ℓ) : Type ℓ where
  pub entries : List (String × V)

module _ {ℓ} {V : Type ℓ} where
  abbrev pub empty : TreeMap V
  empty = record { entries = [] }

  pub lookup : String → List (String × V) → Option V
  lookup k [] = none
  lookup k ((j, v) ∷ rest) = if k == j then some v else lookup k rest

  pub insert_entry : String → V → List (String × V) → List (String × V)
  insert_entry k v [] = (k, v) ∷ []
  insert_entry k v ((j, w) ∷ rest) = elim (compare_text k j) [
    | Ordering.lt ↦ (k, v) ∷ ((j, w) ∷ rest)
    | Ordering.eq ↦ (k, v) ∷ rest
    | Ordering.gt ↦ (j, w) ∷ insert_entry k v rest
  ]

  -- BTreeMap::get
  unfoldable pub get : String → TreeMap V → Option V
  unfolding lookup
  get k m = lookup k m.entries

  -- BTreeMap::insert
  unfoldable pub insert : String → V → TreeMap V → TreeMap V
  unfolding insert_entry
  insert k v m = record { entries = insert_entry k v m.entries }

  -- BTreeMap::len
  abbrev pub size : TreeMap V → ℕ
  size m = length m.entries

  -- Every key lies above `k`.
  abbrev pub Above : String → List (String × V) → Type ℓ
  Above k [] = Unit
  Above k ((j, v) ∷ rest) = (compare_text k j ≡ Ordering.lt) × Above k rest

  abbrev pub IsAscending : List (String × V) → Type ℓ
  IsAscending [] = Unit
  IsAscending ((j, v) ∷ rest) = Above j rest × IsAscending rest
