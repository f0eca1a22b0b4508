-- ===== src/Snapshot/ScaledRatio/Exact.antt =====
-- The scaled ratio of crates/discovery-engine/src/snapshot.rs is the exact floor.
use mathlib.Core.WellFounded.{Acc}
use native.Mathlib.Nat
use native.Mathlib.Bridge.{le_prop}
use mathlib.Core.Logic.{dif_pos, dif_neg}
use native.Mathlib.Decide.{dec_lt}
use soldisco.Prelude.{
  ℕ, ◌+◌, ◌-◌, ◌*◌, ◌/◌, ◌%◌, ◌^◌, ◌<◌, ◌≤◌, ◌≡◌, sym, ok, err, ltb, leb, ◌==◌, ◌||◌, if◌then◌else◌,
  arith, leb→le, leb→lt, Bool-cases, ==_iff, true, false, ap, ◌∙◌, inl, inr,
}
use soldisco.Snapshot.Checked.{
  Checked, arithmetic_overflow, u128_width, checked_add-eq-ok, checked_mul-eq-ok,
}
use soldisco.Snapshot.ScaledRatio.{
  ceil_scaled_denominator, Interval, midpoint_of, upper, lower, upper-⊏, lower-⊏, ◌⊏◌, Interval-acc,
  search_fraction, scaled_proper_fraction, checked_scaled_ratio,
}

-- the quotient rounded up
abbrev pub ceil_div : ℕ → ℕ → ℕ
ceil_div a b = a / b + (if a % b == 0 then 0 else 1)

-- A quotient rounded up stays within a bound exactly when the dividend does.
module _ (a b n : ℕ) (positive : 0 < b) where
  pub le-of-ceil_div : ceil_div a b ≤ n → a ≤ n * b
  le-of-ceil_div h = elim (Bool-cases (a % b == 0)) [
    | inl e ↦
        let le : a / b ≤ n = ground arith in
        omega (arith, Nat.div-add-mod' a b, Nat.mul-le-mul_right b le, (==_iff _ _).0 e)
    | inr e ↦
        let le : a / b + 1 ≤ n = ground arith in
        omega (arith, Nat.div-add-mod' a b, Nat.mul-le-mul_right b le, Nat.mod-lt a positive)
  ]

  pub ceil_div-le_of : a ≤ n * b → ceil_div a b ≤ n
  ceil_div-le_of h = elim (Bool-cases (a % b == 0)) [
    | inl e ↦
        let le : a / b ≤ n =
          Nat.le_of_mul-le-mul_right (omega (arith, Nat.div-add-mod' a b)) positive in
        ground arith
    | inr e ↦
        let lt : a / b < n =
          Nat.lt_of_mul-lt-mul_right b (omega (arith, Nat.div-add-mod' a b, nonzero e)) in
        ground arith
  ]
    where
      nonzero : (a % b == 0) ≡ false → 0 < a % b
      nonzero e = ground arith

-- Splitting off the multiples of the divisor changes no quotient and no remainder.
module _ (m v s : ℕ) (positive : 0 < s) where
  split : s * (v / s * m) + v % s * m ≡ v * m
  split = rw (← Nat.mul_assoc, ← Nat.add-mul, Nat.div-add-mod)

  ceil_div-split : v / s * m + ceil_div (v % s * m) s ≡ ceil_div (v * m) s
  ceil_div-split =
      let e : v * m / s ≡ v / s * m + v % s * m / s =
        sym (ap (λ t. t / s) split) ∙ Nat.mul-add-div positive (v / s * m) (v % s * m) in
      let f : v * m % s ≡ v % s * m % s =
        sym (ap (λ t. t % s) split) ∙ Nat.mul-add-mod_self_left s (v / s * m) (v % s * m) in
      rw (e, f) (omega arith)

-- On its precondition, and for a divisor of at most 64 bits, the source's rounding up is exact.
module _ (m v s : ℕ) (positive : 0 < s) (le : m ≤ s) (narrow : s < 2 ^ 64)
    (word : v < 2 ^ 128) where
  whole-lt : v / s * m < 2 ^ 128
  whole-lt = omega (arith, Nat.mul-le-mul_left (v / s) le, Nat.div-mul-le_self v s)

  product-lt : v % s * m < 2 ^ 128
  product-lt =
      let small : v % s ≤ 18446744073709551615 = omega (arith, Nat.mod-lt v positive) in
      let small' : m ≤ 18446744073709551615 = omega arith in
      omega (arith, Nat.mul-le-mul small small')

  sum-lt : v / s * m + ceil_div (v % s * m) s < 2 ^ 128
  sum-lt =
      rw (ceil_div-split m v s positive)
        (omega (arith, ceil_div-le_of (v * m) s v positive (Nat.mul-le-mul_left v le)))

  pub ceil_scaled_denominator_exact : ceil_scaled_denominator m v s ≡ ok (ceil_div (v * m) s)
  unfolding ceil_scaled_denominator
  ceil_scaled_denominator_exact =
      let nonzero : (s == 0) ≡ false = ground arith in
      let within : ltb s m ≡ false = ground arith in
      rw (nonzero, within, checked_mul-eq-ok _ _ whole-lt, checked_mul-eq-ok _ _ product-lt)
        (checked_add-eq-ok u128_width _ _ sum-lt
          ∙ ap {B = Checked ℕ} ok (ceil_div-split m v s positive))

-- The search returns the floor of numerator * scale / denominator, if that lies in its interval.
module _ (n d s : ℕ) (positive : 0 < d) (scaled : 0 < s) (narrow : s < 2 ^ 64)
    (word : d < 2 ^ 128) where
  fits_below :
      (r : Interval) → leb (ceil_div (d * midpoint_of r) s) n ≡ true → midpoint_of r ≤ n * s / d
  fits_below r fits = (Nat.le-div_iff_mul-le positive).1 (
      rw (Nat.mul_comm (midpoint_of r) d)
        (le-of-ceil_div (d * midpoint_of r) s n scaled (leb→le _ _ fits)))

  exceeds_above :
      (r : Interval)
      → leb (ceil_div (d * midpoint_of r) s) n ≡ false
      → n * s / d ≤ midpoint_of r - 1
  exceeds_above r exceeds = elim (dec_lt (n * s) (midpoint_of r * d)) [
    | yes lt ↦
        let lt' : n * s / d < midpoint_of r = (Nat.div-lt_iff_lt-mul positive).1 lt in omega arith
    | no ge ↦
        let le : d * midpoint_of r ≤ n * s = rw (Nat.mul_comm d (midpoint_of r)) (omega arith) in
        omega (arith, ceil_div-le_of (d * midpoint_of r) s n scaled le, leb→lt _ _ exceeds)
  ]

  search_fraction_exact :
      (r : Interval) (w : Acc ◌⊏◌ r)
      → r.high ≤ s
      → r.low ≤ n * s / d
      → n * s / d ≤ r.high
      → search_fraction n d s r w ≡ ok (n * s / d)
  unfolding search_fraction
  search_fraction_exact r (Acc.intro _ smaller) top below above = elim (dec_lt r.low r.high) [
    | no closed ↦ rw (dif_neg (dec_lt r.low r.high) closed) (ap {B = Checked ℕ} ok (omega arith))
    | yes h ↦
        let exact =
          ceil_scaled_denominator_exact (midpoint_of r) d s scaled (omega arith) narrow word in
        rw (dif_pos (dec_lt r.low r.high) le_prop h) (
          rw exact (elim (Bool-cases (leb (ceil_div (d * midpoint_of r) s) n)) [
            | inl fits ↦ rw fits (
                search_fraction_exact (upper r) (smaller _ (upper-⊏ r h)) top (fits_below r fits)
                  above)
            | inr exceeds ↦ rw exceeds (
                search_fraction_exact (lower r) (smaller _ (lower-⊏ r h)) (omega arith) below
                  (exceeds_above r exceeds))
          ]))
  ]

module _ (n d s : ℕ) (narrow : s < 2 ^ 64) (word : d < 2 ^ 128) where
  -- For a proper fraction the source's search is the floor of numerator * scale / denominator.
  pub scaled_proper_fraction_exact : n < d → scaled_proper_fraction n d s ≡ ok (n * s / d)
  unfolding scaled_proper_fraction
  scaled_proper_fraction_exact proper = elim (Bool-cases (n == 0 || s == 0)) [
    | inl trivial ↦ rw trivial (ap {B = Checked ℕ} ok (sym (zero_result trivial)))
    | inr scaled ↦
        let whole : Interval = record { low = 0; high = s } in
        rw scaled (
          search_fraction_exact n d s (omega arith) (ground arith) narrow word whole
            (Interval-acc whole) (omega arith) (omega arith) (within scaled))
  ]
    where
      zero_result : (n == 0 || s == 0) ≡ true → n * s / d ≡ 0
      zero_result trivial =
          let e : n * s ≡ 0 = ground (arith, Nat.zero-mul s, Nat.mul-zero n) in
          rw e (Nat.zero-div d)

      within : (n == 0 || s == 0) ≡ false → n * s / d ≤ s
      within scaled =
          Nat.div-le_of_le-mul d (omega (arith, Nat.mul-le-mul_right s (Nat.le_of_lt proper)))

-- With a scale of at most 64 bits the ratio is the exact floor, and it fails only where that floor
-- does not fit into 128 bits, or the denominator is 0.
pub checked_scaled_ratio_exact :
    (n d s : ℕ)
    → s < 2 ^ 64
    → d < 2 ^ 128
    → checked_scaled_ratio n d s ≡ (
        if d == 0
        then err arithmetic_overflow
        else if ltb (n * s / d) (2 ^ 128)
        then ok (n * s / d)
        else err arithmetic_overflow)
unfolding checked_scaled_ratio
checked_scaled_ratio_exact n d s narrow word = elim (dec_lt 0 d) [
  | no zero_d ↦ ground arith
  | yes positive ↦
      let e : n * s / d ≡ n / d * s + n % d * s / d =
        sym (ap (λ t. t / d) (split s n d positive))
        ∙ Nat.mul-add-div positive (n / d * s) (n % d * s) in
      rw (scaled_proper_fraction_exact (n % d) d s narrow word (Nat.mod-lt n positive), e)
        (ground arith)
]
