-- ===== src/RentCycle/Schedule.antt =====
-- The theorems about `rentPeriods` as its callers see it.
use rookopg.Prelude.{
  ◌≤◌, ◌<◌, ◌≡◌, refl, ◌⊎◌, inl, inr, arith, ltb, if◌then◌else◌, Bool-cases, ==_iff, Bool, true,
  false, List, [], All, All-imp, length, or_else, ◌||◌, sym, ◌∙◌,
}
use rookopg.Calendar.{Date, get_utc_full_year, get_utc_month, get_utc_date}
use rookopg.Calendar.Civil.{Shows-self, month_of}
use rookopg.RentCycle.{
  start_of_day, CycleOptions, RentPeriod, anchor_day_in, reached, cycle_of, rent_periods,
  max_periods,
}
use rookopg.RentCycle.Dates.{anchor_day_in_self}
use rookopg.RentCycle.Periods.{
  Linked, periods_from-Linked, last_end, periods_from-covers, InBounds, periods_from-InBounds,
  Prefix, periods_from-prefix,
}
use rookopg.RentCycle.BillingDay.{IsBillingDay, IsWhole, periods_from-IsWhole}

-- The anchor day, if given, is a day of the month: the database's CHECK on `cycleAnchorDay`.
abbrev pub ValidAnchor : CycleOptions → Type 0
ValidAnchor o = 1 ≤ or_else o.cycle_anchor_day 1

anchor-pos : (o : CycleOptions) → ValidAnchor o → 1 ≤ (cycle_of o).anchor
unfolding cycle_of get_utc_date
anchor-pos o h = ground arith

by_reached :
    (b : Bool) {ps : List RentPeriod} (P : List RentPeriod → Type 0)
    → (b ≡ true → P [])
    → (b ≡ false → P ps)
    → P (if b then [] else ps)
by_reached true P h k = h refl
by_reached false P h k = k refl

prefix_unless :
    (b : Bool) (ps qs : List RentPeriod)
    → Prefix ps qs
    → Prefix (if b then [] else ps) (if b then [] else qs)
prefix_unless true ps qs h = ([], refl)
prefix_unless false ps qs h = h

on_anchor :
    (o : CycleOptions)
    → (ltb 0 0 || (cycle_of o).starts_on_anchor) ≡ true
    → let start = start_of_day o.start_date in
      anchor_day_in (get_utc_full_year start) (get_utc_month start) (cycle_of o).anchor ≡ start
unfolding cycle_of
on_anchor o on = (==_iff _ _).0 on

starts_on_anchor-IsBillingDay :
    (o : CycleOptions)
    → ValidAnchor o
    → (ltb 0 0 || (cycle_of o).starts_on_anchor) ≡ true
    → IsBillingDay (cycle_of o).anchor (start_of_day o.start_date)
starts_on_anchor-IsBillingDay o h on =
    let start = start_of_day o.start_date in
    let s = Shows-self start in
    (
      month_of start,
      sym (on_anchor o on)
          ∙ (rw (s.year, s.month)
              (anchor_day_in_self (month_of start) (cycle_of o).anchor (anchor-pos o h))),
    )

-- The periods tile the stay: the first starts on the move-in day, every further one starts on the
-- day that the one before it ends, and none is empty.
pub rent_periods-Linked : (o : CycleOptions) → Linked (start_of_day o.start_date) (rent_periods o)
unfolding rent_periods
rent_periods-Linked o =
    by_reached _ (Linked (start_of_day o.start_date)) (λ _. tt)
      λ _.
        periods_from-Linked (cycle_of o) (start_of_day o.up_to) max_periods 0
          (start_of_day o.start_date)

-- No period starts after the cutoff or ends after the last day, each falls due the day it starts,
-- and none costs more than the monthly rent.
rent_periods-InBounds :
    (o : CycleOptions) → All (InBounds (cycle_of o) (start_of_day o.up_to)) (rent_periods o)
unfolding rent_periods
rent_periods-InBounds o =
    by_reached _ (All (InBounds (cycle_of o) (start_of_day o.up_to))) (λ _. tt)
      (periods_from-InBounds (cycle_of o) (start_of_day o.up_to) max_periods 0
        (start_of_day o.start_date))

-- With an anchor day of at least 1 and fewer than 600 periods none is missing: the last one ends after the cutoff, or on the day
-- that the tenant leaves (there is no period at all if that day is not after the move-in day).
pub rent_periods-covers :
    (o : CycleOptions)
    → ValidAnchor o
    → length (rent_periods o) < max_periods
    → (start_of_day o.up_to < last_end (start_of_day o.start_date) (rent_periods o))
      ⊎ (reached (cycle_of o).finish (last_end (start_of_day o.start_date) (rent_periods o)) ≡ true)
unfolding rent_periods
rent_periods-covers o h =
    by_reached _
      (λ ps.
        length ps < max_periods
        → (start_of_day o.up_to < last_end (start_of_day o.start_date) ps)
          ⊎ (reached (cycle_of o).finish (last_end (start_of_day o.start_date) ps) ≡ true))
      (λ r _. inr r)
      (periods_from-covers (cycle_of o) (start_of_day o.up_to) max_periods 0
        (start_of_day o.start_date) (anchor-pos o h))

-- Running again with a cutoff that is no earlier yields the same periods, followed by further ones.
rent_periods-prefix :
    (o : CycleOptions) (later : Date)
    → start_of_day o.up_to ≤ start_of_day later
    → Prefix (rent_periods o) (rent_periods (record o { up_to = later }))
unfolding rent_periods
rent_periods-prefix o later h =
    prefix_unless (reached (cycle_of o).finish (start_of_day o.start_date)) _ _ (
      periods_from-prefix (cycle_of o) (start_of_day o.up_to) (start_of_day later) max_periods 0
        (start_of_day o.start_date) h)

IsWhole-unless :
    (o : CycleOptions)
    → ValidAnchor o
    → All (λ p. p.is_pro_rata ≡ false → IsWhole (cycle_of o) p) (rent_periods o)
unfolding rent_periods
IsWhole-unless o h =
    by_reached _ (All (λ p. p.is_pro_rata ≡ false → IsWhole (cycle_of o) p)) (λ _. tt)
      λ _.
        periods_from-IsWhole (cycle_of o) (start_of_day o.up_to) max_periods 0
          (start_of_day o.start_date) (anchor-pos o h) (starts_on_anchor-IsBillingDay o h)

-- With an anchor day of at least 1, every period is pro rata, or costs the monthly rent and runs from
-- the billing day of one month (the anchor day, or the last day of a shorter month) to that of the
-- next.
pub rent_periods-IsWhole :
    (o : CycleOptions)
    → ValidAnchor o
    → All (λ p. (p.is_pro_rata ≡ true) ⊎ IsWhole (cycle_of o) p) (rent_periods o)
rent_periods-IsWhole o h =
    All-imp (λ p. p.is_pro_rata ≡ false → IsWhole (cycle_of o) p)
      (λ p. (p.is_pro_rata ≡ true) ⊎ IsWhole (cycle_of o) p) (rent_periods o)
      (λ p whole. elim (Bool-cases p.is_pro_rata) [
        | inl part ↦ inl part
        | inr full ↦ inr (whole full)
      ])
      (IsWhole-unless o h)
