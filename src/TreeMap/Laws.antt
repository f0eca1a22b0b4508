-- ===== src/TreeMap/Laws.antt =====
-- Laws of the ordered map: insertion keeps the keys ascending, and lookups see the last insertion.
use Prim.Native.String.{compare as compare_text}
use text.Mathlib.Text.{◌==◌}
use text.Mathlib.TextEquality.{path_by_compare}
use soldisco.Prelude.{
  ℕ, String, Ordering, Option, none, some, List, [], ◌∷◌, ◌≡◌, refl, arith, if◌then◌else◌, eq_iff,
  inl, inr, subst, sym, ap, ◌∙◌, ◌+◌, All, Bool-cases,
}
use soldisco.Prelude.Order.{compare_text-IsWeakOrder, flip}
use soldisco.TreeMap.{TreeMap, lookup, insert_entry, get, insert, Above, IsAscending}

module _ {ℓ} {V : Type ℓ} where
  lookup-insert_entry :
      (k j : String) (v : V) (l : List (String × V))
      → lookup j (insert_entry k v l) ≡ (if j == k then some v else lookup j l)
  unfolding lookup insert_entry
  lookup-insert_entry k j v [] = refl
  lookup-insert_entry k j v ((i, w) ∷ l) =
      ground (
        arith,
        eq_iff j k,
        eq_iff j i,
        path_by_compare k i,
        lookup-insert_entry k j v l,
        eq_iff k i,
      )

  Above-trans :
      (k j : String) (l : List (String × V))
      → compare_text k j ≡ Ordering.lt
      → Above j l
      → Above k l
  Above-trans k j [] lt above = tt
  Above-trans k j ((i, w) ∷ l) lt above =
      (compare_text-IsWeakOrder.lt_trans k j i lt above.0, Above-trans k j l lt above.1)

  lookup-none_of_Above : (k : String) (l : List (String × V)) → Above k l → lookup k l ≡ none
  unfolding lookup
  lookup-none_of_Above k [] above = refl
  lookup-none_of_Above k ((j, w) ∷ l) above =
      ground (arith, above.0, lookup-none_of_Above k l above.1)

  Above-insert_entry :
      (i k : String) (v : V) (l : List (String × V))
      → compare_text i k ≡ Ordering.lt
      → Above i l
      → Above i (insert_entry k v l)
  unfolding insert_entry
  Above-insert_entry i k v [] lt above = (lt, tt)
  Above-insert_entry i k v ((j, w) ∷ l) lt above =
      split (compare_text k j) refl (Above-insert_entry i k v l lt above.1)
    where
      split :
          (o : Ordering)
          → compare_text k j ≡ o
          → Above i (insert_entry k v l)
          → Above i (insert_entry k v ((j, w) ∷ l))
      split Ordering.lt e h = rw (e, Above) (lt, above)
      split Ordering.eq e h = rw (e, Above) (lt, above.1)
      split Ordering.gt e h = rw (e, Above) (above.0, h)

  insert_entry-IsAscending :
      (k : String) (v : V) (l : List (String × V))
      → IsAscending l
      → IsAscending (insert_entry k v l)
  unfolding insert_entry
  insert_entry-IsAscending k v [] sorted = (tt, tt)
  insert_entry-IsAscending k v ((j, w) ∷ l) sorted =
      split (compare_text k j) refl (insert_entry-IsAscending k v l sorted.1)
    where
      split :
          (o : Ordering)
          → compare_text k j ≡ o
          → IsAscending (insert_entry k v l)
          → IsAscending (insert_entry k v ((j, w) ∷ l))
      split Ordering.lt e h = rw (e, IsAscending) ((e, Above-trans k j l e sorted.0), sorted)
      split Ordering.eq e h =
          rw (e, IsAscending)
            (subst (λ i. Above i l) (sym (path_by_compare k j e)) sorted.0, sorted.1)
      split Ordering.gt e h =
          rw (e, IsAscending)
            (
              Above-insert_entry j k v l (compare_text-IsWeakOrder.flips k j ∙ ap flip e) sorted.0,
              h,
            )

  module _ (f : V → ℕ) where
    -- The measure of a map is the sum over its entries.
    abbrev pub sum_by : List (String × V) → ℕ
    sum_by [] = 0
    sum_by ((k, v) ∷ l) = f v + sum_by l

    abbrev pub measure_of : Option V → ℕ
    measure_of none = 0
    measure_of (some v) = f v

    sum_by-insert_entry :
        (k : String) (v : V) (l : List (String × V))
        → IsAscending l
        → sum_by (insert_entry k v l) + measure_of (lookup k l) ≡ sum_by l + f v
    unfolding insert_entry lookup
    sum_by-insert_entry k v [] sorted = omega arith
    sum_by-insert_entry k v ((j, w) ∷ l) sorted = ground (
      arith,
      sum_by-insert_entry k v l sorted.1,
      lookup-none_of_Above k l,
      Above-trans k j l,
      sorted.0,
    )

  -- What holds of every entry holds of what a lookup returns.
  lookup-All :
      (P : V → Type 0) (k : String) (l : List (String × V)) {v : V}
      → All (λ e. P e.1) l
      → lookup k l ≡ some v
      → P v
  unfolding lookup
  lookup-All P k [] h e = cc
  lookup-All P k ((j, w) ∷ l) {v} h e = elim (Bool-cases (k == j)) [
    | inl same ↦ let found : w ≡ v = ground arith in subst P found h.0
    | inr other ↦ lookup-All P k l h.1 (rw other at e)
  ]

  pub get-insert :
      (k j : String) (v : V) (m : TreeMap V)
      → get j (insert k v m) ≡ (if j == k then some v else get j m)
  unfolding get insert
  get-insert k j v m = lookup-insert_entry k j v m.entries

  pub insert-IsAscending :
      (k : String) (v : V) (m : TreeMap V)
      → IsAscending m.entries
      → IsAscending (insert k v m).entries
  unfolding insert
  insert-IsAscending k v m sorted = insert_entry-IsAscending k v m.entries sorted

  pub sum_by-insert :
      (f : V → ℕ) (k : String) (v : V) (m : TreeMap V)
      → IsAscending m.entries
      → sum_by f (insert k v m).entries + measure_of f (get k m) ≡ sum_by f m.entries + f v
  unfolding insert get
  sum_by-insert f k v m sorted = sum_by-insert_entry f k v m.entries sorted

  pub get-All :
      (P : V → Type 0) (k : String) (m : TreeMap V) {v : V}
      → All (λ e. P e.1) m.entries
      → get k m ≡ some v
      → P v
  unfolding get
  get-All P k m h e = lookup-All P k m.entries h e
