-- ===== src/Snapshot/Price/Order.antt =====
-- Prices are kept in lowest terms, and compared exactly (crates/discovery-engine/src/snapshot.rs).
use mathlib.Core.Path.{ap₂}
use native.Mathlib.Nat
use native.Mathlib.Decide.{dec_lt}
use soldisco.Prelude.{
  ℕ, ◌*◌, ◌/◌, ◌<◌, ◌≤◌, ◌∣◌, ◌≡◌, ◌^◌, ◌||◌, sym, ap, ◌∙◌, arith, ok, ◌==◌, false, compare,
  Ordering, subst,
}
use soldisco.Snapshot.Checked.{Checked, checked_mul-eq-ok}
use soldisco.Snapshot.Price.{PriceRatio, new_ratio, checked_cmp}
use soldisco.Snapshot.Price.Gcd.{greatest_common_divisor, gcd-dvd, dvd-gcd}

-- A price in lowest terms has no common factor but 1.
pub record IsReduced (r : PriceRatio) : Type 0 where
  pub quote_positive : 0 < r.quote_units
  pub base_positive : 0 < r.base_units
  pub coprime : (k : ℕ) → k ∣ r.quote_units → k ∣ r.base_units → k ≡ 1

module _ (q b : ℕ) (q_positive : 0 < q) (b_positive : 0 < b) where
  abbrev g : ℕ
  g = greatest_common_divisor q b

  g_positive : 0 < g
  g_positive = Nat.pos_of_dvd_of_pos (gcd-dvd q b).0 q_positive

  quotient_positive : (n : ℕ) → 0 < n → g ∣ n → 0 < n / g
  quotient_positive n n_positive d =
      (Nat.le-div_iff_mul-le g_positive).1 (rw Nat.one-mul (Nat.le_of_dvd n_positive d))

  scaled : (k n : ℕ) → g ∣ n → k ∣ n / g → k * g ∣ n
  scaled k n d h = subst (λ t. k * g ∣ t) (Nat.div-mul_cancel g d) (Nat.mul-dvd-mul_right k h g)

  coprime_quotients : (k : ℕ) → k ∣ q / g → k ∣ b / g → k ≡ 1
  coprime_quotients k hq hb = Nat.eq-one_of_dvd-one (
      Nat.dvd_of_mul-dvd-mul_right k g_positive (
        rw Nat.one-mul
          (dvd-gcd (k * g) q b (scaled k q (gcd-dvd q b).0 hq) (scaled k b (gcd-dvd q b).1 hb))))

  abbrev reduced : PriceRatio
  reduced = record { quote_units = q / g; base_units = b / g }

  new_ratio-eq-ok : new_ratio q b ≡ ok reduced
  unfolding new_ratio
  new_ratio-eq-ok = let e : (q == 0 || b == 0) ≡ false = ground arith in rw e

  -- Every price of nonzero amounts is in lowest terms, and both its parts are the amounts divided by
  -- one common factor.
  new_ratio-IsReduced :
      (r : PriceRatio) × (new_ratio q b ≡ ok r)
      × IsReduced r
      × ((c : ℕ) × (r.quote_units * c ≡ q) × (r.base_units * c ≡ b))
  new_ratio-IsReduced = (
    reduced,
    new_ratio-eq-ok,
    record {
      quote_positive = quotient_positive q q_positive (gcd-dvd q b).0;
      base_positive = quotient_positive b b_positive (gcd-dvd q b).1;
      coprime = coprime_quotients;
    },
    (g, Nat.div-mul_cancel g (gcd-dvd q b).0, Nat.div-mul_cancel g (gcd-dvd q b).1),
  )

-- A common positive factor does not change a comparison.
compare-mul : (a b c : ℕ) → 0 < c → compare (a * c) (b * c) ≡ compare a b
compare-mul a b c positive = elim (dec_lt a b) [
  | yes lt ↦ ground (arith, Nat.mul-lt-mul_of_pos_right lt positive)
  | no ge ↦ elim (dec_lt b a) [
    | yes gt ↦ ground (arith, Nat.mul-lt-mul_of_pos_right gt positive)
    | no le ↦ let e : a ≡ b = omega arith in rw e (ground arith)
  ]
]

-- The products that `checked_cmp` compares, with their factors apart.
cross-mul : (p r c d : ℕ) → p * c * (r * d) ≡ p * r * (c * d)
cross-mul p r c d = omega arith

returned_positive : (q b : ℕ) {r : PriceRatio} → new_ratio q b ≡ ok r → (0 < q) × (0 < b)
unfolding new_ratio
returned_positive q b e = ground arith

-- The parts of a price, times their common factor, are the amounts.
record Factor (q b : ℕ) (r : PriceRatio) : Type 0 where
  factor : ℕ
  positive : 0 < factor
  quote_part : r.quote_units * factor ≡ q
  base_part : r.base_units * factor ≡ b

new_ratio-Factor : (q b : ℕ) (r : PriceRatio) → new_ratio q b ≡ ok r → Factor q b r
new_ratio-Factor q b r e =
    let (q_positive, b_positive) = returned_positive q b e in
    let same : reduced q b q_positive b_positive ≡ r =
      cc (new_ratio-eq-ok q b q_positive b_positive) in
    subst (Factor q b) same (record {
      factor = greatest_common_divisor q b;
      positive = g_positive q b q_positive b_positive;
      quote_part = Nat.div-mul_cancel _ (gcd-dvd q b).0;
      base_part = Nat.div-mul_cancel _ (gcd-dvd q b).1;
    })

module _ (q b q' b' : ℕ) (r r' : PriceRatio) (f : Factor q b r) (f' : Factor q' b' r') where
  cross : r.quote_units * r'.base_units * (f.factor * f'.factor) ≡ q * b'
  cross =
      sym (cross-mul r.quote_units r'.base_units f.factor f'.factor)
      ∙ ap₂ ◌*◌ f.quote_part f'.base_part

  cross_swapped : r'.quote_units * r.base_units * (f.factor * f'.factor) ≡ q' * b
  cross_swapped =
      ap (λ t. r'.quote_units * r.base_units * t) (Nat.mul_comm f.factor f'.factor)
      ∙ sym (cross-mul r'.quote_units r.base_units f'.factor f.factor)
      ∙ ap₂ ◌*◌ f'.quote_part f.base_part

  factors_positive : 0 < f.factor * f'.factor
  factors_positive = Nat.mul-pos f.positive f'.positive

part-lt : (a b : ℕ) → a < 2 ^ 64 → b < 2 ^ 64 → (p c : ℕ) → 0 < c → p * c ≡ a * b → p < 2 ^ 128
part-lt a b a_word b_word p c positive e =
    let a_le : a ≤ 18446744073709551615 = omega arith in
    let b_le : b ≤ 18446744073709551615 = omega arith in
    omega (arith, Nat.mul-le-mul a_le b_le, Nat.le-mul_of_pos_right p positive)

-- The prices of two trades of nonzero 64-bit amounts compare, without overflow, as the exact
-- fractions quote / base of the amounts do.
pub checked_cmp_exact :
    (q b q' b' : ℕ) (r r' : PriceRatio)
    → q < 2 ^ 64
    → b < 2 ^ 64
    → q' < 2 ^ 64
    → b' < 2 ^ 64
    → new_ratio q b ≡ ok r
    → new_ratio q' b' ≡ ok r'
    → checked_cmp r r' ≡ ok (compare (q * b') (q' * b))
unfolding checked_cmp
checked_cmp_exact q b q' b' r r' q_word b_word q'_word b'_word e e' =
    let f = new_ratio-Factor q b r e in
    let f' = new_ratio-Factor q' b' r' e' in
    let c : ℕ = f.factor * f'.factor in
    let positive : 0 < c = factors_positive q b q' b' r r' f f' in
    let left = cross q b q' b' r r' f f' in
    let right = cross_swapped q b q' b' r r' f f' in
    rw
      (
        checked_mul-eq-ok _ _ (part-lt q b' q_word b'_word _ c positive left),
        checked_mul-eq-ok _ _ (part-lt q' b q'_word b_word _ c positive right),
      )
      (ap {B = Checked Ordering} ok (sym (compare-mul _ _ c positive) ∙ ap₂ compare left right))
