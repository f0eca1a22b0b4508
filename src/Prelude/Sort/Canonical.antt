-- ===== src/Prelude/Sort/Canonical.antt =====
-- Sorting does not depend on the order of its input, where elements that compare equal are equal.
use Prim.Native.Nat.{Ordering}
use mathlib.Core.Path.{◌≡◌, refl, ap₂, subst, subst₂, ◌∙◌}
use mathlib.Core.Bool.{Bool, true, false}
use mathlib.Core.List.{List, [], ◌∷◌, Permᴰ}
use native.Mathlib.Omega.{arith}
use soldisco.Prelude.Lists.{All, retain}
use soldisco.Prelude.Tests.{if◌then◌else◌}
use mathlib.Core.List.Permᴰ
use soldisco.Prelude.Order.{IsWeakOrder}
use soldisco.Prelude.Sort.{insert_sorted, sort_by}

module _ {ℓ} {A : Type ℓ} (cmp : A → A → Ordering) (O : IsWeakOrder cmp) where
  -- Two insertions commute, in any list.
  insert_sorted_comm :
      (a b : A) (l : List A)
      → (cmp a b ≡ Ordering.eq → a ≡ b)
      → insert_sorted cmp a (insert_sorted cmp b l) ≡ insert_sorted cmp b (insert_sorted cmp a l)
  unfolding insert_sorted
  insert_sorted_comm a b [] same = ground (arith, O.flips a b)
  insert_sorted_comm a b (c ∷ l) same = ground (
    arith,
    insert_sorted_comm a b l same,
    O.flips a b,
    O.flips a c,
    O.flips b c,
    O.lt_trans a b c,
    O.lt_trans b a c,
    O.lt_trans a c b,
    O.lt_trans b c a,
    O.lt_trans c a b,
    O.lt_trans c b a,
    O.eq_congruent a c b,
    O.eq_congruent b c a,
  )

module _ {ℓ κ} {A : Type ℓ} (P : A → Type κ) where
  All-perm : {xs ys : List A} → Permᴰ xs ys → All P xs → All P ys
  All-perm Permᴰ.nil h = h
  All-perm (Permᴰ.cons e p) h = (subst P e h.0, All-perm p h.1)
  All-perm (Permᴰ.swap e e') h = (subst P e' h.1.0, (subst P e h.0, h.1.1))
  All-perm (Permᴰ.trans p q) h = All-perm q (All-perm p h)

module _ {ℓ} {A : Type ℓ} (test : A → Bool) where
  kept-cons :
      (t : Bool) (a : A) {us vs : List A}
      → Permᴰ us vs
      → Permᴰ (if t then a ∷ us else us) (if t then a ∷ vs else vs)
  kept-cons true a p = Permᴰ.cons refl p
  kept-cons false a p = p

  kept-swap :
      (t u : Bool) (a b : A) (l : List A)
      → Permᴰ
          (if t then a ∷ (if u then b ∷ l else l) else (if u then b ∷ l else l))
          (if u then b ∷ (if t then a ∷ l else l) else (if t then a ∷ l else l))
  kept-swap true true a b l = Permᴰ.swap refl refl
  kept-swap true false a b l = Permᴰ.refl (a ∷ l)
  kept-swap false true a b l = Permᴰ.refl (b ∷ l)
  kept-swap false false a b l = Permᴰ.refl l

  -- Filtering a permutation permutes what is kept.
  pub retain-perm : {xs ys : List A} → Permᴰ xs ys → Permᴰ (retain test xs) (retain test ys)
  retain-perm Permᴰ.nil = Permᴰ.nil
  retain-perm (Permᴰ.cons {a = a} {b = b} {l₁ = xs} {l₂ = ys} e p) =
      subst (λ c. Permᴰ (retain test (a ∷ xs)) (retain test (c ∷ ys))) e
        (kept-cons (test a) a (retain-perm p))
  retain-perm (Permᴰ.swap {a = a} {b = b} {l = l} e e') =
      subst₂ (λ c d. Permᴰ (retain test (a ∷ (b ∷ l))) (retain test (c ∷ (d ∷ l)))) e' e
        (kept-swap (test a) (test b) a b (retain test l))
  retain-perm (Permᴰ.trans p q) = Permᴰ.trans (retain-perm p) (retain-perm q)

module _ {ℓ κ} {A : Type ℓ} (cmp : A → A → Ordering) (O : IsWeakOrder cmp) (P : A → Type κ)
    (distinct : (a b : A) → P a → P b → cmp a b ≡ Ordering.eq → a ≡ b) where
  pub sort_by-perm : {xs ys : List A} → Permᴰ xs ys → All P xs → sort_by cmp xs ≡ sort_by cmp ys
  unfolding sort_by
  sort_by-perm Permᴰ.nil h = refl
  sort_by-perm (Permᴰ.cons {l₂ = ys} e p) h = ap₂ (insert_sorted cmp) e (sort_by-perm p h.1)
  sort_by-perm (Permᴰ.swap {a = a} {b = b} {l = l} e e') h =
      insert_sorted_comm cmp O a b (sort_by cmp l) (distinct a b h.0 h.1.0)
      ∙ ap₂ (λ u v. insert_sorted cmp u (insert_sorted cmp v (sort_by cmp l))) e' e
  sort_by-perm (Permᴰ.trans p q) h = sort_by-perm p h ∙ sort_by-perm q (All-perm P p h)
