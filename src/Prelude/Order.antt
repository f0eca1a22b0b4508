-- ===== src/Prelude/Order.antt =====
-- Comparison functions: lexicographic composition, Rust's orders of texts and options, and the laws
-- that sorting and ordered maps rest on.
use Prim.Native.Nat.{ℕ, Ordering, compare as compare_ℕ}
use Prim.Native.Char.{Char, code}
use Prim.Native.String.{String, compare as compare_text, then}
use Prim.Native.String.compare
use mathlib.Core.Path.{◌≡◌, refl, ap, ◌∙◌}
use mathlib.Core.Option.{Option, none, some}
use native.Mathlib.Omega.{arith}
use soldisco.Prelude.Int.{compare_ℤ}
use text.Mathlib.TextEquality.{path_by_compare}
use text.Mathlib.TextPositions.{compare_refl}

abbrev pub flip : Ordering → Ordering
flip Ordering.lt = Ordering.gt
flip Ordering.eq = Ordering.eq
flip Ordering.gt = Ordering.lt

-- Ordering::then_with
abbrev pub then_with : Ordering → Ordering → Ordering
then_with Ordering.eq o = o
then_with Ordering.lt o = Ordering.lt
then_with Ordering.gt o = Ordering.gt

-- The derived order of an Option: None is the least.
abbrev pub compare_option : Option ℕ → Option ℕ → Ordering
compare_option none none = Ordering.eq
compare_option none (some b) = Ordering.lt
compare_option (some a) none = Ordering.gt
compare_option (some a) (some b) = compare_ℕ a b

pub record IsWeakOrder {ℓ} {A : Type ℓ} (cmp : A → A → Ordering) : Type ℓ where
  pub flips : (a b : A) → cmp b a ≡ flip (cmp a b)
  pub lt_trans : (a b c : A) → cmp a b ≡ Ordering.lt → cmp b c ≡ Ordering.lt → cmp a c ≡ Ordering.lt
  pub eq_congruent : (a b c : A) → cmp a b ≡ Ordering.eq → cmp a c ≡ cmp b c

pub compare_ℕ-IsWeakOrder : IsWeakOrder compare_ℕ
compare_ℕ-IsWeakOrder = record {
  flips = λ a b. ground arith;
  lt_trans = λ a b c h k. ground arith;
  eq_congruent = λ a b c h. ground arith;
}

pub compare_option-IsWeakOrder : IsWeakOrder compare_option
compare_option-IsWeakOrder = record {
  flips = λ a b. ground arith;
  lt_trans = λ a b c h k. ground arith;
  eq_congruent = λ a b c h. ground arith;
}

module _ {ℓ} {A : Type ℓ} (f g : A → A → Ordering) (F : IsWeakOrder f) (G : IsWeakOrder g) where
  pub then_with-IsWeakOrder : IsWeakOrder (λ a b. then_with (f a b) (g a b))
  then_with-IsWeakOrder = record {
    flips = λ a b. ground (arith, F.flips a b, G.flips a b);
    lt_trans = λ a b c h k. ground (
      arith,
      F.lt_trans a b c,
      G.lt_trans a b c,
      F.eq_congruent a b c,
      F.eq_congruent c b a,
      F.flips a b,
      F.flips b c,
      F.flips a c,
    );
    eq_congruent = λ a b c h. ground (arith, F.eq_congruent a b c, G.eq_congruent a b c);
  }

pub on-IsWeakOrder {ℓ κ} :
    {A : Type ℓ} {B : Type κ} (f : A → B) (cmp : B → B → Ordering)
    → IsWeakOrder cmp
    → IsWeakOrder (λ a b. cmp (f a) (f b))
on-IsWeakOrder f cmp F = record {
  flips = λ a b. F.flips (f a) (f b);
  lt_trans = λ a b c. F.lt_trans (f a) (f b) (f c);
  eq_congruent = λ a b c. F.eq_congruent (f a) (f b) (f c);
}

-- The clauses of the comparison of texts, as equations.
nil-cons_lem : (d : Char) (t : String) → compare_text String.[] (String.◌∷◌ d t) ≡ Ordering.lt
nil-cons_lem d t = compare.nil-cons d t

cons-nil_lem : (c : Char) (s : String) → compare_text (String.◌∷◌ c s) String.[] ≡ Ordering.gt
cons-nil_lem c s = compare.cons-nil c s

cons-cons_lem :
    (c d : Char) (s t : String)
    → compare_text (String.◌∷◌ c s) (String.◌∷◌ d t)
      ≡ then_with (compare_ℕ (code c) (code d)) (compare_text s t)
cons-cons_lem c d s t = compare.cons-cons c d s t ∙ same (compare_ℕ (code c) (code d))
  where
    same : (o : Ordering) → then o (compare_text s t) ≡ then_with o (compare_text s t)
    same Ordering.lt = refl
    same Ordering.eq = refl
    same Ordering.gt = refl

text_flips : (s t : String) → compare_text t s ≡ flip (compare_text s t)
text_flips String.[] String.[] = rw (compare_refl String.[])
text_flips String.[] (String.◌∷◌ d t) = rw (nil-cons_lem d t, cons-nil_lem d t)
text_flips (String.◌∷◌ c s) String.[] = rw (nil-cons_lem c s, cons-nil_lem c s)
text_flips (String.◌∷◌ c s) (String.◌∷◌ d t) =
    rw (cons-cons_lem c d s t, cons-cons_lem d c t s) (ground (arith, text_flips s t))

nothing_below_nil : (t : String) → compare_text t String.[] ≡ Ordering.lt → ⊥
nothing_below_nil String.[] e = cc (compare_refl String.[])
nothing_below_nil (String.◌∷◌ d t) e = cc (cons-nil_lem d t)

text_lt_trans :
    (s t u : String)
    → compare_text s t ≡ Ordering.lt
    → compare_text t u ≡ Ordering.lt
    → compare_text s u ≡ Ordering.lt
text_lt_trans s t String.[] h k = ground (arith, nothing_below_nil t k)
text_lt_trans s String.[] (String.◌∷◌ e u) h k = ground (arith, nothing_below_nil s h)
text_lt_trans String.[] (String.◌∷◌ d t) (String.◌∷◌ e u) h k = nil-cons_lem e u
text_lt_trans (String.◌∷◌ c s) (String.◌∷◌ d t) (String.◌∷◌ e u) h k = rw cons-cons_lem (
    ground (
      arith,
      text_lt_trans s t u,
      cons-cons_lem c d s t,
      cons-cons_lem d e t u,
      path_by_compare s t,
      path_by_compare t u,
    ))

text_eq_congruent :
    (s t u : String) → compare_text s t ≡ Ordering.eq → compare_text s u ≡ compare_text t u
text_eq_congruent s t u h = ap (λ r. compare_text r u) (path_by_compare s t h)

pub compare_text-IsWeakOrder : IsWeakOrder compare_text
compare_text-IsWeakOrder = record {
  flips = text_flips;
  lt_trans = text_lt_trans;
  eq_congruent = text_eq_congruent;
}

pub compare_ℤ-IsWeakOrder : IsWeakOrder compare_ℤ
compare_ℤ-IsWeakOrder = record {
  flips = λ a b. ground arith;
  lt_trans = λ a b c h k. ground arith;
  eq_congruent = λ a b c h. ground arith;
}
