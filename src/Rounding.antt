-- ===== src/Rounding.antt =====
-- `Math.round` of a quotient of integers, as the money code uses it: to the nearest integer, halves
-- upwards.
use rookopg.Prelude.{ℕ, ◌+◌, ◌-◌, ◌*◌, ◌/◌, ◌≤◌, ◌<◌, ◌≡◌, arith}
use rookopg.Prelude.Int.{ℤ, pos, negsuc, sub_ℕ}
use native.Mathlib.Nat.{le-div_iff_mul-le, div-lt_iff_lt-mul, div-mul-le_self, le_trans}

unfoldable pub round_div : ℕ → ℕ → ℕ
round_div a b = (2 * a + b) / (2 * b)

unfoldable pub round_div_ℤ : ℤ → ℕ → ℤ
unfolding round_div
round_div_ℤ (pos n) b = pos (round_div n b)
round_div_ℤ (negsuc n) b = sub_ℕ 0 ((2 * (n + 1) + b - 1) / (2 * b))

-- Within half a unit of a / b.
pub round_div_bounds :
    (a b : ℕ) → 0 < b → (2 * a ≤ 2 * b * round_div a b + b) × (2 * b * round_div a b ≤ 2 * a + b)
unfolding round_div
round_div_bounds a b h = grind arith

pub round_div_mono : (a c b : ℕ) → 0 < b → a ≤ c → round_div a b ≤ round_div c b
unfolding round_div
round_div_mono a c b h k =
    (le-div_iff_mul-le {k = 2 * b} (omega arith)).1
      (le_trans (div-mul-le_self (2 * a + b) (2 * b)) (omega arith))

pub round_div-le : (a b q : ℕ) → 0 < b → a ≤ q * b → round_div a b ≤ q
unfolding round_div
round_div-le a b q h k =
    let below : (2 * a + b) / (2 * b) < q + 1 =
      (div-lt_iff_lt-mul {k = 2 * b} (omega arith)).1 (omega arith) in
    omega arith

pub le-round_div : (a b q : ℕ) → 0 < b → q * b ≤ a → q ≤ round_div a b
unfolding round_div
le-round_div a b q h k = (le-div_iff_mul-le {k = 2 * b} (omega arith)).1 (omega arith)

pub round_div-mul : (q b : ℕ) → 0 < b → round_div (q * b) b ≡ q
round_div-mul q b h =
    omega
      (arith, round_div-le (q * b) b q h (omega arith), le-round_div (q * b) b q h (omega arith))
