-- ===== src/Tests/Billing.antt =====
-- The rent and price theorems at concrete figures.
use rookopg.Prelude.{◌*◌, ◌≤◌, ◌<◌, ◌≡◌, refl, ◌⊎◌, true, none, some, All, length, arith}
use rookopg.Prelude.Int.{pos, ◌+ℤ◌}
use rookopg.Calendar.{get_utc_full_year, get_utc_month, get_utc_date, date_utc}
use rookopg.RentCycle.{
  CycleOptions, rent_periods, start_of_day, cycle_of, reached, pro_rata_paise, next_anchor_after,
  anchor_day_in, to_utc_date, periods_from, end_of, period_at, days_between, days_in_month,
}
use rookopg.RentCycle.Periods.{Linked, last_end}
use rookopg.RentCycle.BillingDay.{IsWhole}
use rookopg.RentCycle.Schedule.{rent_periods-Linked, rent_periods-covers, rent_periods-IsWhole}
use rookopg.Pricing.{PriceInput, price_booking, commission_applies, plus_utc_months}
use rookopg.Pricing.Split.{price_booking_conserves}

-- A stay that starts on 31 January 1970, billed until 15 March.
abbrev stay : CycleOptions
stay = record {
  start_date = 30 * 86400000;
  end_date = none;
  monthly_rent_paise = 700000;
  cycle_anchor_day = some 31;
  up_to = 73 * 86400000;
}

rent_periods-Linked_example : Linked (start_of_day stay.start_date) (rent_periods stay)
rent_periods-Linked_example = rent_periods-Linked stay

rent_periods-IsWhole_example :
    All (λ p. (p.is_pro_rata ≡ true) ⊎ IsWhole (cycle_of stay) p) (rent_periods stay)
rent_periods-IsWhole_example = rent_periods-IsWhole stay (omega arith)

few_periods : length (rent_periods stay) ≡ 2
unfolding rent_periods periods_from cycle_of start_of_day to_utc_date anchor_day_in
    next_anchor_after end_of period_at days_in_month days_between pro_rata_paise get_utc_full_year
    get_utc_month get_utc_date date_utc
few_periods = refl

rent_periods-covers_example :
    (start_of_day stay.up_to < last_end (start_of_day stay.start_date) (rent_periods stay))
    ⊎ (reached (cycle_of stay).finish (last_end (start_of_day stay.start_date) (rent_periods stay))
        ≡ true)
rent_periods-covers_example = rent_periods-covers stay (omega arith) (rw few_periods (omega arith))

later : start_of_day stay.up_to ≤ start_of_day (104 * 86400000)
unfolding start_of_day to_utc_date get_utc_full_year get_utc_month get_utc_date date_utc
later = omega arith

abbrev price : PriceInput
price = record {
  monthly_rent_paise = pos 700000;
  deposit_paise = pos 100000;
  commission_bps = 1000;
  convenience_fee_paise = pos 500;
  commission_applies = true;
}

price_booking_conserves_example :
    (price_booking price).owner_share_paise +ℤ pos (price_booking price).platform_fee_paise
    ≡ pos (price_booking price).total_payable_paise
price_booking_conserves_example = price_booking_conserves price

applies_in_july : commission_applies (some 0) 6 (200 * 86400000) ≡ true
unfolding commission_applies plus_utc_months get_utc_full_year get_utc_month get_utc_date date_utc
applies_in_july = refl
