-- ===== src/Pricing.antt =====
-- apps/backend/src/modules/booking/booking.pricing.ts: what a tenant pays and how it splits. Every
-- figure is a whole number of paise, so rounding the inputs does nothing; a negative one counts as
-- 0. Products stay far below 2 ^ 53, where a JavaScript number is exact.
pub mod Split
pub mod FreePeriod
use rookopg.Prelude.{
  ℕ, ◌+◌, ◌-◌, ◌*◌, ◌/◌, Bool, true, false, Option, none, some, leb, if◌then◌else◌,
}
use rookopg.Prelude.Int.{ℤ, pos_part, sub_ℕ}
use rookopg.Rounding.{round_div}
use rookopg.Calendar.{Date, ms_per_day, get_utc_full_year, get_utc_month, get_utc_date, date_utc}

pub record PriceInput : Type 0 where
  pub monthly_rent_paise : ℤ
  pub deposit_paise : ℤ
  pub commission_bps : ℕ
  pub convenience_fee_paise : ℤ
  pub commission_applies : Bool

pub record PriceBreakdown : Type 0 where
  pub rent_paise : ℕ
  pub deposit_paise : ℕ
  pub convenience_fee_paise : ℕ
  pub total_payable_paise : ℕ
  pub commission_paise : ℕ
  pub owner_share_paise : ℤ
  pub platform_fee_paise : ℕ

-- `Math.max(0, x)` is `pos_part`.
unfoldable pub price_booking : PriceInput → PriceBreakdown
price_booking input =
    let rent_paise = pos_part input.monthly_rent_paise in
    let deposit_paise = pos_part input.deposit_paise in
    let convenience_fee_paise = pos_part input.convenience_fee_paise in
    let commission_paise =
      if input.commission_applies then round_div (rent_paise * input.commission_bps) 10000 else 0 in
    record {
      rent_paise = rent_paise;
      deposit_paise = deposit_paise;
      convenience_fee_paise = convenience_fee_paise;
      total_payable_paise = rent_paise + deposit_paise + convenience_fee_paise;
      commission_paise = commission_paise;
      owner_share_paise = sub_ℕ (rent_paise + deposit_paise) commission_paise;
      platform_fee_paise = commission_paise + convenience_fee_paise;
    }

-- `endsAt.setUTCMonth(endsAt.getUTCMonth() + n)`: the day runs over where the month is too short,
-- and the time of day stays.
unfoldable pub plus_utc_months : Date → ℕ → Date
plus_utc_months d n =
    date_utc (get_utc_full_year d) (get_utc_month d + n) (get_utc_date d)
    + (d - d / ms_per_day * ms_per_day)

unfoldable pub commission_applies : Option Date → ℕ → Date → Bool
unfolding plus_utc_months
commission_applies none free_period_months now = false
commission_applies (some free_period_starts_at) free_period_months now =
    leb (plus_utc_months free_period_starts_at free_period_months) now
