-- ===== src/Prelude/Sort/Ascending.antt =====
-- Sorting gives an ascending permutation of its input.
use Prim.Native.Nat.{Ordering}
use mathlib.Core.Path.{◌≡◌, refl}
use mathlib.Core.Logic.{◌≢◌}
use mathlib.Core.List.{List, [], ◌∷◌, Permᴰ}
use mathlib.Core.List.Permᴰ
use soldisco.Prelude.Sort.{insert_sorted, sort_by}

-- Each element stands in the relation to the next one.
abbrev pub Ascending {ℓ κ} : {A : Type ℓ} → (A → A → Type κ) → List A → Type κ
Ascending R [] = Unit
Ascending R (a ∷ []) = Unit
Ascending R (a ∷ (b ∷ l)) = R a b × Ascending R (b ∷ l)

module _ {ℓ} {A : Type ℓ} (cmp : A → A → Ordering) where
  insert_sorted-perm : (a : A) (l : List A) → Permᴰ (insert_sorted cmp a l) (a ∷ l)
  unfolding insert_sorted
  insert_sorted-perm a [] = Permᴰ.refl (a ∷ [])
  insert_sorted-perm a (b ∷ l) = placed (insert_sorted-perm a l) (cmp a b)
    where
      placed :
          Permᴰ (insert_sorted cmp a l) (a ∷ l)
          → (o : Ordering)
          → Permᴰ
              (elim o [ Ordering.gt ↦ b ∷ insert_sorted cmp a l | _ ↦ a ∷ (b ∷ l) ])
              (a ∷ (b ∷ l))
      placed later Ordering.gt = Permᴰ.trans (Permᴰ.cons refl later) (Permᴰ.swap refl refl)
      placed later Ordering.lt = Permᴰ.refl (a ∷ (b ∷ l))
      placed later Ordering.eq = Permᴰ.refl (a ∷ (b ∷ l))

  pub sort_by_perm : (l : List A) → Permᴰ (sort_by cmp l) l
  unfolding sort_by
  sort_by_perm [] = Permᴰ.nil
  sort_by_perm (a ∷ l) =
      Permᴰ.trans (insert_sorted-perm a (sort_by cmp l)) (Permᴰ.cons refl (sort_by_perm l))

  module _ {κ} (R : A → A → Type κ) (first_smaller : (a b : A) → cmp a b ≢ Ordering.gt → R a b)
      (first_greater : (a b : A) → cmp a b ≡ Ordering.gt → R b a) where
    insert_sorted_after :
        (a b : A) (l : List A)
        → R b a
        → Ascending R (b ∷ l)
        → Ascending R (insert_sorted cmp a l)
        → Ascending R (b ∷ insert_sorted cmp a l)
    unfolding insert_sorted
    insert_sorted_after a b [] r h k = (r, tt)
    insert_sorted_after a b (c ∷ l) r h k = placed (cmp a c) k
      where
        placed :
            (o : Ordering)
            → Ascending R (elim o [ Ordering.gt ↦ c ∷ insert_sorted cmp a l | _ ↦ a ∷ (c ∷ l) ])
            → Ascending R
                (b ∷ (elim o [ Ordering.gt ↦ c ∷ insert_sorted cmp a l | _ ↦ a ∷ (c ∷ l) ]))
        placed Ordering.gt s = (h.0, s)
        placed Ordering.lt s = (r, s)
        placed Ordering.eq s = (r, s)

    Ascending-tail : (b : A) (l : List A) → Ascending R (b ∷ l) → Ascending R l
    Ascending-tail b [] h = tt
    Ascending-tail b (c ∷ l) h = h.1

    insert_sorted-Ascending :
        (a : A) (l : List A) → Ascending R l → Ascending R (insert_sorted cmp a l)
    unfolding insert_sorted
    insert_sorted-Ascending a [] h = tt
    insert_sorted-Ascending a (b ∷ l) h =
        placed (insert_sorted-Ascending a l (Ascending-tail b l h)) (cmp a b) refl
      where
        placed :
            Ascending R (insert_sorted cmp a l)
            → (o : Ordering) → cmp a b ≡ o
            → Ascending R (elim o [ Ordering.gt ↦ b ∷ insert_sorted cmp a l | _ ↦ a ∷ (b ∷ l) ])
        placed rest Ordering.gt e = insert_sorted_after a b l (first_greater a b e) h rest
        placed rest Ordering.lt e = (first_smaller a b (λ g. cc), h)
        placed rest Ordering.eq e = (first_smaller a b (λ g. cc), h)

    pub sort_by-Ascending : (l : List A) → Ascending R (sort_by cmp l)
    unfolding sort_by
    sort_by-Ascending [] = tt
    sort_by-Ascending (a ∷ l) = insert_sorted-Ascending a (sort_by cmp l) (sort_by-Ascending l)
