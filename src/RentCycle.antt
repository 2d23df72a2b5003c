-- ===== src/RentCycle.antt =====
-- apps/backend/src/modules/billing/rent-cycle.ts: rent periods and part-months. Money is in paise.
-- The proofs are in the modules below.
pub mod Dates
pub mod Anchor
pub mod ProRata
pub mod Periods
pub mod BillingDay
pub mod Schedule
use Prim.Native.Nat.{min}
use rookopg.Prelude.{
  ℕ, zero, suc, ◌+◌, ◌-◌, ◌*◌, ◌/◌, ◌%◌, Bool, true, false, not, ◌&&◌, ◌||◌, Option, none, some,
  List, [], ◌∷◌, ltb, leb, ◌==◌, if◌then◌else◌, or_else,
}
use rookopg.Prelude.Int.{ℤ, pos, negsuc, sub_ℕ}
use rookopg.Rounding.{round_div, round_div_ℤ}
use rookopg.Calendar.{Date, ms_per_day, get_utc_full_year, get_utc_month, get_utc_date, date_utc}

unfoldable pub to_utc_date : ℕ → ℕ → ℕ → Date
to_utc_date year month_index day = date_utc year month_index day

unfoldable pub start_of_day : Date → Date
start_of_day date = date_utc (get_utc_full_year date) (get_utc_month date) (get_utc_date date)

unfoldable pub days_in_month : ℕ → ℕ → ℕ
days_in_month year month_index = get_utc_date (date_utc year (month_index + 1) 0)

unfoldable pub days_between : Date → Date → ℤ
unfolding round_div_ℤ
days_between from to = round_div_ℤ (sub_ℕ (start_of_day to) (start_of_day from)) ms_per_day

-- `months` is not negative here; no caller passes a negative one.
unfoldable pub add_months_clamped : Date → ℕ → Date
unfolding to_utc_date
add_months_clamped date months =
    let year = get_utc_full_year date in
    let month_index = get_utc_month date + months in
    let day = get_utc_date date in
    let target_year = year + month_index / 12 in
    let target_month = (month_index % 12 + 12) % 12 in
    to_utc_date target_year target_month (min day (days_in_month target_year target_month))

unfoldable pub anchor_day_in : ℕ → ℕ → ℕ → Date
unfolding to_utc_date
anchor_day_in year month_index anchor_day =
    to_utc_date year month_index (min anchor_day (days_in_month year month_index))

pub record RentPeriod : Type 0 where
  pub period_start : Date
  pub period_end : Date
  pub due_date : Date
  pub amount_paise : ℕ
  pub is_pro_rata : Bool
  pub days : ℤ

unfoldable pub pro_rata_paise : ℕ → ℤ → ℕ → ℕ
unfolding round_div
pro_rata_paise monthly_rent_paise (negsuc _) in_month_days = 0
pro_rata_paise monthly_rent_paise (pos days) in_month_days =
    if leb days 0
    then 0
    else if leb in_month_days days
    then monthly_rent_paise
    else round_div (monthly_rent_paise * days) in_month_days

pub record CycleOptions : Type 0 where
  pub start_date : Date
  pub cycle_anchor_day : Option ℕ
  pub monthly_rent_paise : ℕ
  pub up_to : Date
  pub end_date : Option Date

unfoldable pub next_anchor_after : ℕ → Date → Date
next_anchor_after anchor from =
    let same_month = anchor_day_in (get_utc_full_year from) (get_utc_month from) anchor in
    if ltb from same_month
    then same_month
    else anchor_day_in (get_utc_full_year from) (get_utc_month from + 1) anchor

-- What the loop reads and does not change.
pub record Cycle : Type 0 where
  pub anchor : ℕ
  pub finish : Option Date
  pub rent : ℕ
  pub starts_on_anchor : Bool

unfoldable pub end_of : Cycle → Date → Date
end_of c period_start =
    let natural_end = next_anchor_after c.anchor period_start in
    elim c.finish [
      | none ↦ natural_end
      | some finish ↦ if ltb finish natural_end then finish else natural_end
    ]

unfoldable pub period_at : Cycle → ℕ → Date → RentPeriod
unfolding end_of
period_at c index period_start =
    let natural_end = next_anchor_after c.anchor period_start in
    let period_end = end_of c period_start in
    let truncated_by_departure = not (period_end == natural_end) in
    let is_full_cycle = not truncated_by_departure && (ltb 0 index || c.starts_on_anchor) in
    let days = days_between period_start period_end in
    let in_month_days =
      days_in_month (get_utc_full_year period_start) (get_utc_month period_start) in
    record {
      period_start = period_start;
      period_end = period_end;
      due_date = period_start;
      amount_paise = if is_full_cycle then c.rent else pro_rata_paise c.rent days in_month_days;
      is_pro_rata = not is_full_cycle;
      days = days;
    }

-- `finish && finish <= date`, and `finish && periodEnd >= finish`
abbrev pub reached : Option Date → Date → Bool
reached none period_end = false
reached (some finish) period_end = leb finish period_end

-- The `while` loop: `left` is 600 - `index`.
unfoldable pub periods_from : Cycle → Date → ℕ → ℕ → Date → List RentPeriod
unfolding period_at
periods_from c cutoff zero index period_start = []
periods_from c cutoff (suc left) index period_start =
    let period_end = end_of c period_start in
    let rest = periods_from c cutoff left (index + 1) period_end in
    let tail = if reached c.finish period_end then [] else rest in
    if leb period_start cutoff
    then (if leb period_end period_start then [] else period_at c index period_start ∷ tail)
    else []

abbrev pub max_periods : ℕ
max_periods = 600

unfoldable pub cycle_of : CycleOptions → Cycle
cycle_of o =
    let start = start_of_day o.start_date in
    let anchor = or_else o.cycle_anchor_day (get_utc_date start) in
    record {
      anchor = anchor;
      finish = elim o.end_date [ none ↦ none | some d ↦ some (start_of_day d) ];
      rent = o.monthly_rent_paise;
      starts_on_anchor =
          anchor_day_in (get_utc_full_year start) (get_utc_month start) anchor == start;
    }

unfoldable pub rent_periods : CycleOptions → List RentPeriod
unfolding cycle_of
rent_periods o =
    let c = cycle_of o in
    let start = start_of_day o.start_date in
    if reached c.finish start then [] else periods_from c (start_of_day o.up_to) max_periods 0 start
