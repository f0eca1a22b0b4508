-- ===== src/Prelude/Display.antt =====
-- Rust's Display of integers, which the source uses in `format!`: decimal digits with no leading
-- zero, and a minus sign before a negative number.
use mathlib.Core.WellFounded.{Acc}
use mathlib.Core.Logic.{dite}
use native.Mathlib.Decide.{dec_lt}
use native.Mathlib.Omega.{arith}
use mathlib.Core.Path.{◌≡◌, refl}
use Prim.Native.Nat.{ℕ, zero, suc, ◌+◌, ◌/◌, ◌%◌, ◌<◌}
use Prim.Native.String.{String, ◌++◌ as concat_text}
use soldisco.Prelude.Tests.{◌==◌, if◌then◌else◌}
use soldisco.Prelude.Int.{ℤ, pos, negsuc}

digit : ℕ → String
digit d =
    if d == 0
    then "0"
    else if d == 1
    then "1"
    else if d == 2
    then "2"
    else if d == 3
    then "3"
    else if d == 4
    then "4"
    else if d == 5
    then "5"
    else if d == 6
    then "6"
    else if d == 7
    then "7"
    else if d == 8
    then "8"
    else "9"

Acc-below : (k n : ℕ) → n < k → Acc ◌<◌ n
Acc-below zero n h = elim h [ ]
Acc-below (suc k) n h = Acc.intro n (λ m smaller. Acc-below k m (omega arith))

-- The digits of `n`, before the text `rest`.
show_digits : (n : ℕ) → Acc ◌<◌ n → String → String
unfolding digit
show_digits n (Acc.intro _ smaller) rest =
    let shown = concat_text (digit (n % 10)) rest in
    dite (dec_lt 9 n) (λ h. show_digits (n / 10) (smaller (n / 10) (omega arith)) shown)
      (λ _. shown)

unfoldable pub show_ℕ : ℕ → String
unfolding show_digits Acc-below dec_lt
show_ℕ n = show_digits n (Acc-below (suc n) n (omega arith)) ""

unfoldable pub show_ℤ : ℤ → String
unfolding show_ℕ
show_ℤ (pos n) = show_ℕ n
show_ℤ (negsuc n) = concat_text "-" (show_ℕ (n + 1))

show_ℤ_example : concat_text (show_ℤ (pos 120)) (show_ℤ (negsuc 8)) ≡ "120-9"
unfolding show_ℤ
show_ℤ_example = refl
