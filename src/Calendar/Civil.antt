-- ===== src/Calendar/Civil.antt =====
-- `civil` and `month_start` are inverse, so the year, month and day of a date are its own.
use rookopg.Prelude.{
  ℕ, zero, suc, ◌+◌, ◌-◌, ◌*◌, ◌/◌, ◌%◌, ◌≤◌, ◌<◌, ◌≡◌, ◌⊎◌, inl, inr, refl, ap, arith, ltb, ltb→lt,
  ltb→le, Bool-cases,
}
use native.Mathlib.Numerals.{add-one}
use rookopg.Calendar.{
  Date, ms_per_day, month_length, month_start, find_month, civil, get_utc_full_year, get_utc_month,
  get_utc_date, date_utc,
}
use rookopg.Calendar.Months.{month_length_bounds, month_start-suc, month_start-lt}

trichotomy : (a b : ℕ) → (a < b) ⊎ ((b < a) ⊎ (a ≡ b))
trichotomy a b = ground arith

month_start-add_one : (k : ℕ) → month_start (k + 1) ≡ month_start k + month_length k
month_start-add_one k = rw add-one (month_start-suc k)

month_start-zero : month_start 0 ≡ 0
unfolding month_start
month_start-zero = refl

find_month_lem :
    (fuel k n : ℕ)
    → n ≤ fuel
    → (month_start (find_month fuel k n).0 + (find_month fuel k n).1 ≡ month_start k + n)
      × ((find_month fuel k n).1 < month_length (find_month fuel k n).0)
unfolding find_month
find_month_lem zero k n h = (refl, omega (arith, month_length_bounds k))
find_month_lem (suc fuel) k n h = elim (Bool-cases (ltb n (month_length k))) [
  | inl inside ↦ rw (inside, find_month) (refl, ltb→lt n (month_length k) inside)
  | inr beyond ↦
      let m = n - month_length k in
      let le = ltb→le n (month_length k) beyond in
      let rec = find_month_lem fuel (k + 1) m (omega (arith, month_length_bounds k)) in
      rw (beyond, find_month)
        (omega (arith, rec.0, month_start-suc k, month_start-add_one k), rec.1)
]

civil_lem :
    (n : ℕ) → (month_start (civil n).0 + (civil n).1 ≡ n) × ((civil n).1 < month_length (civil n).0)
unfolding civil
civil_lem n =
    let p = find_month_lem n 0 n (omega arith) in (omega (arith, p.0, month_start-zero), p.1)

-- A day lies in one month only.
month_unique :
    (k j a b : ℕ)
    → month_start k + a ≡ month_start j + b
    → a < month_length k
    → b < month_length j
    → (k ≡ j) × (a ≡ b)
month_unique k j a b e ha hb = elim (trichotomy k j) [
  | inl lt ↦ absurd (omega (arith, month_start-lt k j lt))
  | inr (inl gt) ↦ absurd (omega (arith, month_start-lt j k gt))
  | inr (inr eq) ↦ (eq, omega (arith, ap month_start eq))
]

-- The day that starts `a` days after the first of month `k`.
pub civil-month_start : (k a : ℕ) → a < month_length k → civil (month_start k + a) ≡ (k, a)
civil-month_start k a h =
    let p = civil_lem (month_start k + a) in
    let q =
      month_unique (civil (month_start k + a)).0 k (civil (month_start k + a)).1 a p.0 p.1 h in
    λ i. (q.0 i, q.1 i)

pub day_of_ms : (n : ℕ) → n * ms_per_day / ms_per_day ≡ n
day_of_ms n = omega arith

-- Any day is some day of some month, and the accessors read off which.
pub record Shows (d : Date) (k a : ℕ) : Type 0 where
  pub year : get_utc_full_year d ≡ 1970 + k / 12
  pub month : get_utc_month d ≡ k % 12
  pub date : get_utc_date d ≡ a + 1

pub Shows-day : (k a : ℕ) → a < month_length k → Shows ((month_start k + a) * ms_per_day) k a
unfolding get_utc_full_year get_utc_month get_utc_date
Shows-day k a h =
    let e = day_of_ms (month_start k + a) in
    let c = civil-month_start k a h in
    record { year = rw (e, c) refl; month = rw (e, c) refl; date = rw (e, c) refl }

-- The month and the day within it of the day that a time lies in.
unfoldable pub month_of : Date → ℕ
month_of d = (civil (d / ms_per_day)).0

unfoldable pub day_index : Date → ℕ
day_index d = (civil (d / ms_per_day)).1

pub Shows-self : (d : Date) → Shows d (month_of d) (day_index d)
unfolding get_utc_full_year get_utc_month get_utc_date month_of day_index
Shows-self d = record { year = refl; month = refl; date = refl }

pub day_split :
    (d : Date)
    → (month_start (month_of d) + day_index d ≡ d / ms_per_day)
      × (day_index d < month_length (month_of d))
unfolding month_of day_index
day_split d = civil_lem (d / ms_per_day)

-- `Date.UTC` at the year and month of month `k`, run over by `m` more months.
pub date_utc-month :
    (k m day : ℕ)
    → date_utc (1970 + k / 12) (k % 12 + m) day ≡ (month_start (k + m) + day - 1) * ms_per_day
unfolding date_utc
date_utc-month k m day =
    let e : (1970 + k / 12 - 1970) * 12 + (k % 12 + m) ≡ k + m = omega arith in rw e refl

pub date_utc_self :
    (k day : ℕ) → date_utc (1970 + k / 12) (k % 12) day ≡ (month_start k + day - 1) * ms_per_day
unfolding date_utc
date_utc_self k day = let e : (1970 + k / 12 - 1970) * 12 + k % 12 ≡ k = omega arith in rw e refl
