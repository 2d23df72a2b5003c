-- ===== src/Pricing/FreePeriod.antt =====
-- The owner's free period.
use rookopg.Prelude.{
  ℕ, zero, suc, ◌+◌, ◌-◌, ◌*◌, ◌%◌, ◌≤◌, ◌≡◌, true, arith, leb→le, Option, none, some,
}
use native.Mathlib.Nat.{add-zero, add-suc}
use rookopg.Calendar.{Date, ms_per_day, month_start}
use rookopg.Calendar.Civil.{Shows-self, month_of, day_index, day_split, date_utc-month}
use rookopg.Calendar.Months.{month_start-suc, month_length_bounds}
use rookopg.Pricing.{commission_applies, plus_utc_months}

-- Adding months goes to the same day of the month and time of day, that many months on.
pub plus_utc_months-eq :
    (d : Date) (n : ℕ)
    → plus_utc_months d n
      ≡ (month_start (month_of d + n) + day_index d) * ms_per_day + d % ms_per_day
unfolding plus_utc_months
plus_utc_months-eq d n =
    let s = Shows-self d in
    let e : month_start (month_of d + n) + (day_index d + 1) - 1
        ≡ month_start (month_of d + n) + day_index d =
      omega arith in
    rw (s.year, s.month, s.date)
      (rw (date_utc-month (month_of d) n (day_index d + 1)) (rw e (omega arith)))

month_start-add : (k n : ℕ) → month_start k + 28 * n ≤ month_start (k + n)
month_start-add k zero = rw (add-zero k) (omega arith)
month_start-add k (suc n) =
    rw (add-suc k n)
      (omega (arith, month_start-add k n, month_start-suc (k + n), month_length_bounds (k + n)))

-- Where commission applies, at least 28 days for each month of the free period have passed since
-- it started.
free_period_lasts :
    (start now : Date) (months : ℕ)
    → commission_applies (some start) months now ≡ true
    → start + 28 * months * ms_per_day ≤ now
unfolding commission_applies
free_period_lasts start now months h = omega (
  arith,
  leb→le (plus_utc_months start months) now h,
  plus_utc_months-eq start months,
  month_start-add (month_of start) months,
  (day_split start).0,
)

-- Once commission applies it goes on applying.
commission_applies_mono :
    (start : Option Date) (months : ℕ) (now later : Date)
    → now ≤ later
    → commission_applies start months now ≡ true
    → commission_applies start months later ≡ true
unfolding commission_applies
commission_applies_mono none months now later h c = c
commission_applies_mono (some s) months now later h c = ground arith
