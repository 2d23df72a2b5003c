-- ===== src/RentCycle/BillingDay.antt =====
-- Whole periods run from one billing day to the next: the billing day does not drift.
use rookopg.Prelude.{
  ℕ, zero, suc, ◌+◌, ◌-◌, ◌≤◌, ◌<◌, ◌≡◌, refl, ap, arith, ltb, leb, if◌then◌else◌, Bool, true,
  false, List, [], ◌∷◌, All, ◌||◌, ◌∙◌,
}
use Prim.Native.Nat.{min}
use rookopg.Calendar.{Date, month_start, month_length}
use rookopg.Calendar.Months.{month_length_bounds}
use rookopg.Calendar.Civil.{month_of, civil-month_start, day_of_ms}
use rookopg.RentCycle.{
  next_anchor_after, Cycle, RentPeriod, end_of, period_at, periods_from, reached,
}
use rookopg.RentCycle.Anchor.{anchor_date, next_month, next_anchor_after-eq}

month_of-anchor_date : (anchor k : ℕ) → month_of (anchor_date anchor k) ≡ k
unfolding month_of
month_of-anchor_date anchor k =
    let a = min anchor (month_length k) - 1 in
    let h : a < month_length k = omega (arith, month_length_bounds k) in
    rw (day_of_ms (month_start k + a), civil-month_start k a h, month_of) refl

next_month-anchor_date : (anchor k : ℕ) → next_month anchor (anchor_date anchor k) ≡ suc k
unfolding next_month
next_month-anchor_date anchor k = rw (month_of-anchor_date anchor k) (ground arith)

-- After the billing day of a month comes that of the following month.
pub next_anchor_after-anchor_date :
    (anchor k : ℕ)
    → 1 ≤ anchor
    → next_anchor_after anchor (anchor_date anchor k) ≡ anchor_date anchor (suc k)
next_anchor_after-anchor_date anchor k h =
    next_anchor_after-eq anchor (anchor_date anchor k) h
    ∙ ap (anchor_date anchor) (next_month-anchor_date anchor k)

abbrev pub IsBillingDay : ℕ → Date → Type 0
IsBillingDay anchor d = (k : ℕ) × (d ≡ anchor_date anchor k)

-- A whole period costs the whole rent and runs from a billing day to that of the next month.
abbrev pub IsWhole : Cycle → RentPeriod → Type 0
IsWhole c p =
    (p.amount_paise ≡ c.rent)
    × ((k : ℕ) × (p.period_start ≡ anchor_date c.anchor k)
        × (p.period_end ≡ anchor_date c.anchor (suc k)))

not_cut :
    (c : Cycle) (from : Date)
    → reached c.finish (end_of c from) ≡ false
    → end_of c from ≡ next_anchor_after c.anchor from
unfolding end_of
not_cut c from r = ground arith

whole_step :
    (P : RentPeriod → Type 0) (go stuck last : Bool) (p : RentPeriod) (ps : List RentPeriod)
    → P p
    → (last ≡ false → All P ps)
    → All P (if go then (if stuck then [] else p ∷ (if last then [] else ps)) else [])
whole_step P false stuck last p ps h k = tt
whole_step P true true last p ps h k = tt
whole_step P true false true p ps h k = (h, tt)
whole_step P true false false p ps h k = (h, k refl)

whole_facts :
    (c : Cycle) (index : ℕ) (from : Date)
    → (period_at c index from).is_pro_rata ≡ false
    → (end_of c from ≡ next_anchor_after c.anchor from)
      × ((ltb 0 index || c.starts_on_anchor) ≡ true)
      × ((period_at c index from).amount_paise ≡ c.rent)
unfolding period_at
whole_facts c index from whole = ground arith

period_at-IsWhole :
    (c : Cycle) (index : ℕ) (from : Date)
    → 1 ≤ c.anchor
    → ((ltb 0 index || c.starts_on_anchor) ≡ true → IsBillingDay c.anchor from)
    → (period_at c index from).is_pro_rata ≡ false
    → IsWhole c (period_at c index from)
period_at-IsWhole c index from h on whole =
    let (ends, counted, amount) = whole_facts c index from whole in
    let (k, e) = on counted in
    let last : end_of c from ≡ anchor_date c.anchor (suc k) =
      ends ∙ ap (next_anchor_after c.anchor) e ∙ next_anchor_after-anchor_date c.anchor k h in
    (amount, (k, unfold period_at in e, unfold period_at in last))

-- A period that the loop goes on from ends on a billing day.
end_of-IsBillingDay :
    (c : Cycle) (from : Date)
    → 1 ≤ c.anchor
    → reached c.finish (end_of c from) ≡ false
    → IsBillingDay c.anchor (end_of c from)
end_of-IsBillingDay c from h r =
    (next_month c.anchor from, not_cut c from r ∙ next_anchor_after-eq c.anchor from h)

pub periods_from-IsWhole :
    (c : Cycle) (cutoff : Date) (left index : ℕ) (from : Date)
    → 1 ≤ c.anchor
    → ((ltb 0 index || c.starts_on_anchor) ≡ true → IsBillingDay c.anchor from)
    → All (λ p. p.is_pro_rata ≡ false → IsWhole c p) (periods_from c cutoff left index from)
unfolding periods_from
periods_from-IsWhole c cutoff zero index from h on = tt
periods_from-IsWhole c cutoff (suc left) index from h on =
    whole_step _ (leb from cutoff) (leb (end_of c from) from) (reached c.finish (end_of c from)) _ _
      (period_at-IsWhole c index from h on)
      λ r.
        periods_from-IsWhole c cutoff left (index + 1) (end_of c from) h
          λ _. end_of-IsBillingDay c from h r
