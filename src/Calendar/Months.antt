-- ===== src/Calendar/Months.antt =====
-- The lengths of the months, and the order of their first days.
use rookopg.Prelude.{ℕ, zero, suc, ◌+◌, ◌/◌, ◌%◌, ◌≤◌, ◌<◌, ◌≡◌, arith}
use rookopg.Calendar.{month_days, month_length, month_start}

month_days_bounds : (y m : ℕ) → (28 ≤ month_days y m) × (month_days y m ≤ 31)
unfolding month_days
month_days_bounds y m = ground arith

pub month_length_bounds : (k : ℕ) → (28 ≤ month_length k) × (month_length k ≤ 31)
unfolding month_length
month_length_bounds k = month_days_bounds (1970 + k / 12) (k % 12)

pub month_start-suc : (k : ℕ) → month_start (suc k) ≡ month_start k + month_length k
unfolding month_start
month_start-suc k = omega arith

-- A month ends before any later one starts.
pub month_start-lt : (k j : ℕ) → k < j → month_start k + month_length k ≤ month_start j
month_start-lt k zero h = elim h [ ]
month_start-lt k (suc j) h = grind (arith, month_start-suc, month_start-lt k j)
