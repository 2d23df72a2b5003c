-- ===== src/RentCycle/Dates.antt =====
-- The date functions of rent-cycle.ts against the calendar.
use Prim.Native.Nat.{min}
use rookopg.Prelude.{ℕ, suc, ◌+◌, ◌-◌, ◌*◌, ◌/◌, ◌%◌, ◌≤◌, ◌≡◌, refl, arith}
use native.Mathlib.Nat.{add_assoc, add-zero}
use rookopg.Calendar.{Date, ms_per_day, month_length, month_start}
use rookopg.Calendar.Months.{month_length_bounds, month_start-suc}
use rookopg.Calendar.Civil.{
  Shows-day, Shows-self, month_of, day_index, day_split, date_utc-month, date_utc_self,
}
use rookopg.RentCycle.{start_of_day, days_in_month, anchor_day_in}

-- A time is midnight (UTC) if it is a whole number of days.
abbrev pub IsMidnight : Date → Type 0
IsMidnight d = d % ms_per_day ≡ 0

-- `startOfDay` drops the time of day and nothing else.
pub start_of_day-eq : (d : Date) → start_of_day d ≡ d / ms_per_day * ms_per_day
unfolding start_of_day
start_of_day-eq d =
    let s = Shows-self d in
    let e : month_start (month_of d) + (day_index d + 1) - 1 ≡ d / ms_per_day =
      omega (arith, (day_split d).0) in
    rw (s.year, s.month, s.date) (rw date_utc_self (rw e refl))

-- `daysInMonth` is the length of that month in the Gregorian calendar, also where the month index
-- runs over the end of the year.
pub days_in_month-eq : (k m : ℕ) → days_in_month (1970 + k / 12) (k % 12 + m) ≡ month_length (k + m)
unfolding days_in_month
days_in_month-eq k m =
    let j = k + m in
    let grow : k + (m + 1) ≡ suc j = omega arith in
    let last : month_start (suc j) + 0 - 1 ≡ month_start j + (month_length j - 1) =
      omega (arith, month_start-suc j, month_length_bounds j) in
    let back : month_length j - 1 + 1 ≡ month_length j = omega (arith, month_length_bounds j) in
    rw (add_assoc (k % 12) m 1) (
      rw (date_utc-month k (m + 1) 0) (
        rw grow (
          rw last (
            rw (Shows-day j (month_length j - 1) (omega (arith, month_length_bounds j))).date
              back))))

pub anchor_day_in-eq :
    (k m anchor : ℕ)
    → 1 ≤ anchor
    → anchor_day_in (1970 + k / 12) (k % 12 + m) anchor
      ≡ (month_start (k + m) + (min anchor (month_length (k + m)) - 1)) * ms_per_day
unfolding anchor_day_in
anchor_day_in-eq k m anchor h =
    let n = month_length (k + m) in
    let first : month_start (k + m) + min anchor n - 1 ≡ month_start (k + m) + (min anchor n - 1) =
      omega (arith, month_length_bounds (k + m)) in
    rw days_in_month-eq (rw (date_utc-month k m (min anchor n)) (rw first refl))

pub days_in_month_self : (k : ℕ) → days_in_month (1970 + k / 12) (k % 12) ≡ month_length k
days_in_month_self k = rw (← add-zero (k % 12)) (rw (days_in_month-eq k 0) (rw (add-zero k) refl))

pub anchor_day_in_self :
    (k anchor : ℕ)
    → 1 ≤ anchor
    → anchor_day_in (1970 + k / 12) (k % 12) anchor
      ≡ (month_start k + (min anchor (month_length k) - 1)) * ms_per_day
anchor_day_in_self k anchor h =
    rw (← add-zero (k % 12)) (rw (anchor_day_in-eq k 0 anchor h) (rw (add-zero k) refl))
