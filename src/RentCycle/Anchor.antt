-- ===== src/RentCycle/Anchor.antt =====
-- The billing day of each month, and `nextAnchorAfter`: the first billing day after a date.
use Prim.Native.Nat.{min}
use rookopg.Prelude.{
  ℕ, suc, ◌+◌, ◌-◌, ◌*◌, ◌≤◌, ◌<◌, ◌≡◌, refl, ap, ◌⊎◌, inl, inr, arith, ltb, if◌then◌else◌,
  Bool-cases, ltb→lt, ltb→le,
}
use native.Mathlib.Numerals.{add-one}
use rookopg.Calendar.{Date, ms_per_day, month_length, month_start}
use rookopg.Calendar.Months.{month_length_bounds, month_start-suc, month_start-lt}
use rookopg.Calendar.Civil.{Shows-self, month_of, day_split}
use rookopg.RentCycle.{next_anchor_after}
use rookopg.RentCycle.Dates.{IsMidnight, anchor_day_in-eq, anchor_day_in_self}

-- The billing day of a month: its anchor day, or its last day where it has fewer days.
abbrev pub anchor_date : ℕ → ℕ → Date
anchor_date anchor k = (month_start k + (min anchor (month_length k) - 1)) * ms_per_day

month_of-le : (d : Date) → month_start (month_of d) * ms_per_day ≤ d
month_of-le d = omega (arith, (day_split d).0)

lt-month_end : (d : Date) → d < month_start (suc (month_of d)) * ms_per_day
lt-month_end d = omega (arith, (day_split d).0, (day_split d).1, month_start-suc (month_of d))

-- A billing day lies in its month.
anchor_date_bounds :
    (anchor k : ℕ)
    → (month_start k * ms_per_day ≤ anchor_date anchor k)
      × (anchor_date anchor k < month_start (suc k) * ms_per_day)
anchor_date_bounds anchor k = omega (arith, month_start-suc k, month_length_bounds k)

-- The month of the next billing day: this one while its billing day is still to come.
unfoldable pub next_month : ℕ → Date → ℕ
next_month anchor from =
    if ltb from (anchor_date anchor (month_of from)) then month_of from else suc (month_of from)

pub next_anchor_after-eq :
    (anchor : ℕ) (from : Date)
    → 1 ≤ anchor
    → next_anchor_after anchor from ≡ anchor_date anchor (next_month anchor from)
unfolding next_anchor_after next_month
next_anchor_after-eq anchor from h =
    let s = Shows-self from in
    let k = month_of from in
    rw (s.year, s.month)
      (rw (anchor_day_in_self k anchor h) (
        rw (anchor_day_in-eq k 1 anchor h) (
          rw (add-one k) (elim (Bool-cases (ltb from (anchor_date anchor k))) [
            | inl e ↦ rw e refl
            | inr e ↦ rw e refl
          ]))))

next_month-cases :
    (anchor : ℕ) (from : Date)
    → ((next_month anchor from ≡ month_of from) × (from < anchor_date anchor (month_of from)))
      ⊎ ((next_month anchor from ≡ suc (month_of from))
          × (anchor_date anchor (month_of from) ≤ from))
unfolding next_month
next_month-cases anchor from = elim (Bool-cases (ltb from (anchor_date anchor (month_of from)))) [
  | inl e ↦ inl (rw e refl, ltb→lt from _ e)
  | inr e ↦ inr (rw e refl, ltb→le from _ e)
]

-- The next billing day is later than the date that it is asked for, for an anchor day of at least 1.
pub next_anchor_after-gt :
    (anchor : ℕ) (from : Date) → 1 ≤ anchor → from < next_anchor_after anchor from
next_anchor_after-gt anchor from h =
    rw (next_anchor_after-eq anchor from h) (elim (next_month-cases anchor from) [
      | inl p ↦ rw p.0 p.1
      | inr p ↦
          rw p.0 (omega (arith, lt-month_end from, anchor_date_bounds anchor (suc (month_of from))))
    ])

start_mono : (j k : ℕ) → j < k → month_start (suc j) * ms_per_day ≤ month_start k * ms_per_day
start_mono j k h = omega (arith, month_start-lt j k h, month_start-suc j)

trichotomy : (a b : ℕ) → (a < b) ⊎ ((b < a) ⊎ (a ≡ b))
trichotomy a b = ground arith

-- Billing days come in the order of their months.
pub anchor_date-lt : (anchor j k : ℕ) → j < k → anchor_date anchor j < anchor_date anchor k
anchor_date-lt anchor j k h =
    omega (arith, anchor_date_bounds anchor j, anchor_date_bounds anchor k, start_mono j k h)

anchor_date-le : (anchor j k : ℕ) → j ≤ k → anchor_date anchor j ≤ anchor_date anchor k
anchor_date-le anchor j k h = elim (trichotomy j k) [
  | inl lt ↦ omega (arith, anchor_date-lt anchor j k lt)
  | inr (inl gt) ↦ absurd (omega arith)
  | inr (inr e) ↦ rw e (omega arith)
]

month_of-le_anchor :
    (anchor : ℕ) (from : Date) (k : ℕ) → from < anchor_date anchor k → month_of from ≤ k
month_of-le_anchor anchor from k later = elim (trichotomy k (month_of from)) [
  | inl lt ↦
      absurd (omega (arith, anchor_date_bounds anchor k, month_of-le from, start_mono k _ lt))
  | inr (inl gt) ↦ omega arith
  | inr (inr e) ↦ omega arith
]

month_of-lt_anchor :
    (anchor : ℕ) (from : Date) (k : ℕ)
    → anchor_date anchor (month_of from) ≤ from
    → from < anchor_date anchor k
    → suc (month_of from) ≤ k
month_of-lt_anchor anchor from k past later = elim (trichotomy (month_of from) k) [
  | inl lt ↦ lt
  | inr (inl gt) ↦ absurd (omega (arith, month_of-le_anchor anchor from k later))
  | inr (inr e) ↦ absurd (omega (arith, ap (anchor_date anchor) e))
]

-- For an anchor day of at least 1, no billing day of any month lies between a date and the next
-- billing day.
next_anchor_after-least :
    (anchor : ℕ) (from : Date) (k : ℕ)
    → 1 ≤ anchor
    → from < anchor_date anchor k
    → next_anchor_after anchor from ≤ anchor_date anchor k
next_anchor_after-least anchor from k h later =
    rw (next_anchor_after-eq anchor from h) (elim (next_month-cases anchor from) [
      | inl p ↦ rw p.0 (anchor_date-le anchor _ k (month_of-le_anchor anchor from k later))
      | inr p ↦ rw p.0 (anchor_date-le anchor _ k (month_of-lt_anchor anchor from k p.1 later))
    ])

next_anchor_after-IsMidnight :
    (anchor : ℕ) (from : Date) → 1 ≤ anchor → IsMidnight (next_anchor_after anchor from)
next_anchor_after-IsMidnight anchor from h = rw (next_anchor_after-eq anchor from h) (omega arith)
