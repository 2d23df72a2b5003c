-- ===== src/RentCycle/ProRata.antt =====
-- Part-months: `proRataPaise` and the whole days between two dates.
use rookopg.Prelude.{ℕ, ◌-◌, ◌*◌, ◌/◌, ◌%◌, ◌≤◌, ◌<◌, ◌≡◌, ap, inl, inr, arith, leb, Bool-cases}
use native.Mathlib.Nat.{mul-le-mul_left}
use rookopg.Prelude.Int.{ℤ, pos, negsuc}
use rookopg.Rounding.{round_div, round_div_ℤ, round_div_mono, round_div-le}
use rookopg.Calendar.{Date, ms_per_day}
use rookopg.RentCycle.{start_of_day, days_between, pro_rata_paise}
use rookopg.RentCycle.Dates.{IsMidnight, start_of_day-eq}

rounded_part_le : (rent days n : ℕ) → days < n → round_div (rent * days) n ≤ rent
rounded_part_le rent days n h = round_div-le (rent * days) n rent (omega arith) (grind arith)

-- A part-month, of any number of days, never costs more than the month.
pub pro_rata_paise-le :
    (rent : ℕ) (days : ℤ) (in_month_days : ℕ) → pro_rata_paise rent days in_month_days ≤ rent
unfolding pro_rata_paise
pro_rata_paise-le rent (negsuc n) m = omega arith
pro_rata_paise-le rent (pos n) m = elim (Bool-cases (leb m n)) [
  | inl e ↦ ground arith
  | inr e ↦ ground (arith, rounded_part_le rent n m)
]

-- More days of a month never cost less.
pro_rata_paise_mono :
    (rent a b m : ℕ) → a ≤ b → pro_rata_paise rent (pos a) m ≤ pro_rata_paise rent (pos b) m
unfolding pro_rata_paise
pro_rata_paise_mono rent a b m h = ground (
  arith,
  round_div_mono (rent * a) (rent * b) m,
  mul-le-mul_left rent h,
  rounded_part_le rent a m,
)

round_days : (n : ℕ) → n % ms_per_day ≡ 0 → round_div_ℤ (pos n) ms_per_day ≡ pos (n / ms_per_day)
unfolding round_div_ℤ
round_days n h = ap pos (omega arith)

-- The days between two midnights.
pub days_between-eq :
    (from to : Date)
    → IsMidnight from
    → IsMidnight to
    → from ≤ to
    → days_between from to ≡ pos ((to - from) / ms_per_day)
unfolding days_between
days_between-eq from to hf ht h =
    let ef : start_of_day from ≡ from = omega (arith, start_of_day-eq from) in
    let et : start_of_day to ≡ to = omega (arith, start_of_day-eq to) in
    rw (ef, et) (ground (arith, round_days (to - from) (omega arith)))
