-- ===== src/Calendar.antt =====
-- The `Date` of ECMAScript as the backend uses it: a time is the number of milliseconds since the
-- start of 1970 (UTC), and every date of the program lies at or after that. `Date.UTC` lets a month
-- or a day run over into the next year or month, as `MakeDay` does.
pub mod Months
pub mod Civil
use rookopg.Prelude.{
  ℕ, zero, suc, ◌+◌, ◌-◌, ◌*◌, ◌/◌, ◌%◌, Bool, true, false, not, ltb, ◌==◌, if◌then◌else◌,
}

abbrev pub Date : Type 0
Date = ℕ

abbrev pub ms_per_day : ℕ
ms_per_day = 86400000

pub is_leap : ℕ → Bool
is_leap y = if not (y % 4 == 0) then false else if not (y % 100 == 0) then true else y % 400 == 0

pub month_days : ℕ → ℕ → ℕ
unfolding is_leap
month_days y m =
    if m == 1
    then (if is_leap y then 29 else 28)
    else if m == 3
    then 30
    else if m == 5
    then 30
    else if m == 8
    then 30
    else if m == 10
    then 30
    else 31

-- Months are counted from January 1970.
unfoldable pub month_length : ℕ → ℕ
unfolding month_days
month_length k = month_days (1970 + k / 12) (k % 12)

-- The day number of the first day of a month.
unfoldable pub month_start : ℕ → ℕ
unfolding month_length
month_start zero = 0
month_start (suc k) = month_start k + month_length k

-- The month that a day lies in, and how many days of it have gone before.
unfoldable pub find_month : ℕ → ℕ → ℕ → ℕ × ℕ
unfolding month_length
find_month zero k n = (k, n)
find_month (suc fuel) k n = elim (ltb n (month_length k)) [
  | true ↦ (k, n)
  | false ↦ find_month fuel (k + 1) (n - month_length k)
]

unfoldable pub civil : ℕ → ℕ × ℕ
unfolding find_month
civil n = find_month n 0 n

unfoldable pub get_utc_full_year : Date → ℕ
unfolding civil
get_utc_full_year d = 1970 + (civil (d / ms_per_day)).0 / 12

unfoldable pub get_utc_month : Date → ℕ
unfolding civil
get_utc_month d = (civil (d / ms_per_day)).0 % 12

unfoldable pub get_utc_date : Date → ℕ
unfolding civil
get_utc_date d = (civil (d / ms_per_day)).1 + 1

-- `Date.UTC(year, monthIndex, day)`
unfoldable pub date_utc : ℕ → ℕ → ℕ → Date
unfolding month_start
date_utc year month_index day =
    (month_start ((year - 1970) * 12 + month_index) + day - 1) * ms_per_day
