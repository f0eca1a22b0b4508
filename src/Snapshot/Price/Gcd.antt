-- ===== src/Snapshot/Price/Gcd.antt =====
-- `greatest_common_divisor` of crates/discovery-engine/src/snapshot.rs, a loop over two variables.
use mathlib.Core.WellFounded.{Acc}
use mathlib.Core.Logic.{dite, dif_pos, dif_neg}
use native.Mathlib.Nat
use native.Mathlib.Bridge.{le_prop}
use native.Mathlib.Decide.{dec_lt}
use soldisco.Prelude.{ℕ, zero, suc, ◌%◌, ◌<◌, ◌∣◌, ◌≡◌, sym, subst, arith}

Acc-below : (k n : ℕ) → n < k → Acc ◌<◌ n
Acc-below zero n h = elim h [ ]
Acc-below (suc k) n h = Acc.intro n (λ m smaller. Acc-below k m (omega arith))

lt-acc : (n : ℕ) → Acc ◌<◌ n
unfolding Acc-below
lt-acc n = Acc-below (suc n) n (omega arith)

-- `while right != 0 { ... } left`
gcd_loop : (left right : ℕ) → Acc ◌<◌ right → ℕ
gcd_loop left right (Acc.intro _ smaller) =
    dite (dec_lt 0 right)
      (λ nonzero. gcd_loop right (left % right) (smaller _ (Nat.mod-lt left nonzero))) (λ _. left)

unfoldable pub greatest_common_divisor : ℕ → ℕ → ℕ
unfolding gcd_loop lt-acc dec_lt
greatest_common_divisor left right = gcd_loop left right (lt-acc right)

gcd_loop-dvd : (a b : ℕ) (w : Acc ◌<◌ b) → (gcd_loop a b w ∣ a) × (gcd_loop a b w ∣ b)
unfolding gcd_loop
gcd_loop-dvd a b (Acc.intro _ smaller) = elim (dec_lt 0 b) [
  | yes h ↦ rw (dif_pos (dec_lt 0 b) le_prop h) (
      let (right, rest) = gcd_loop-dvd b (a % b) (smaller _ (Nat.mod-lt a h)) in
      ((Nat.dvd-mod_iff _ right).0 rest, right))
  | no h ↦
      let e : b ≡ 0 = omega arith in
      rw (dif_neg (dec_lt 0 b) h) (Nat.dvd_refl a, subst (λ t. a ∣ t) (sym e) (Nat.dvd-zero a))
]

dvd-gcd_loop : (k a b : ℕ) (w : Acc ◌<◌ b) → k ∣ a → k ∣ b → k ∣ gcd_loop a b w
unfolding gcd_loop
dvd-gcd_loop k a b (Acc.intro _ smaller) left right = elim (dec_lt 0 b) [
  | yes h ↦ rw (dif_pos (dec_lt 0 b) le_prop h) (
      dvd-gcd_loop k b (a % b) (smaller _ (Nat.mod-lt a h)) right
        ((Nat.dvd-mod_iff k right).1 left))
  | no h ↦ rw (dif_neg (dec_lt 0 b) h) left
]

-- The result divides both arguments.
pub gcd-dvd : (a b : ℕ) → (greatest_common_divisor a b ∣ a) × (greatest_common_divisor a b ∣ b)
unfolding greatest_common_divisor
gcd-dvd a b = gcd_loop-dvd a b (lt-acc b)

-- Every common divisor divides the result.
pub dvd-gcd : (k a b : ℕ) → k ∣ a → k ∣ b → k ∣ greatest_common_divisor a b
unfolding greatest_common_divisor
dvd-gcd k a b = dvd-gcd_loop k a b (lt-acc b)
