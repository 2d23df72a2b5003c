-- ===== src/RentCycle/Periods.antt =====
-- What the periods of a tenancy have in common, whatever its dates.
use rookopg.Prelude.{
  ℕ, zero, suc, ◌+◌, ◌≤◌, ◌<◌, ◌≡◌, refl, ap, ◌⊎◌, inl, inr, arith, leb, if◌then◌else◌, Bool-cases,
  Bool, true, false, List, [], ◌∷◌, ◌++◌, Option, none, some, All, length,
}
use rookopg.Calendar.{Date}
use rookopg.RentCycle.{Cycle, RentPeriod, end_of, period_at, periods_from, reached}
use rookopg.RentCycle.ProRata.{pro_rata_paise-le}
use rookopg.RentCycle.Anchor.{next_anchor_after-gt}

-- The first period starts at `from`, each further one where the one before it ends, and none is
-- empty.
abbrev pub Linked : Date → List RentPeriod → Type 0
Linked from [] = Unit
Linked from (p ∷ ps) = (p.period_start ≡ from) × (from < p.period_end) × Linked p.period_end ps

period_at-start : (c : Cycle) (i : ℕ) (from : Date) → (period_at c i from).period_start ≡ from
unfolding period_at
period_at-start c i from = refl

period_at-end : (c : Cycle) (i : ℕ) (from : Date) → (period_at c i from).period_end ≡ end_of c from
unfolding period_at
period_at-end c i from = refl

pub periods_from-Linked :
    (c : Cycle) (cutoff : Date) (left index : ℕ) (from : Date)
    → Linked from (periods_from c cutoff left index from)
unfolding periods_from
periods_from-Linked c cutoff zero index from = tt
periods_from-Linked c cutoff (suc left) index from =
    ground (arith, periods_from-Linked c cutoff left (index + 1) (end_of c from))

-- Where the periods get to: the end of the last one, or the start if there are none.
abbrev pub last_end : Date → List RentPeriod → Date
last_end from [] = from
last_end from (p ∷ ps) = last_end p.period_end ps

end_of-gt :
    (c : Cycle) (from : Date) → 1 ≤ c.anchor → reached c.finish from ≡ false → from < end_of c from
unfolding end_of
end_of-gt c from h r = ground (arith, next_anchor_after-gt c.anchor from)

-- The loop gives up early only by its bound: else it passes the cutoff or reaches the last day.
pub periods_from-covers :
    (c : Cycle) (cutoff : Date) (left index : ℕ) (from : Date)
    → 1 ≤ c.anchor
    → reached c.finish from ≡ false
    → length (periods_from c cutoff left index from) < left
    → (cutoff < last_end from (periods_from c cutoff left index from))
      ⊎ (reached c.finish (last_end from (periods_from c cutoff left index from)) ≡ true)
unfolding periods_from
periods_from-covers c cutoff zero index from h r short = elim short [ ]
periods_from-covers c cutoff (suc left) index from h r short = ground (
  arith,
  end_of-gt c from h r,
  period_at-end c index from,
  periods_from-covers c cutoff left (index + 1) (end_of c from) h,
)

-- `date` is no later than the last day, if there is one.
abbrev pub Within : Option Date → Date → Type 0
Within none date = Unit
Within (some finish) date = date ≤ finish

end_of-Within :
    (c : Cycle) (from : Date) → reached c.finish from ≡ false → Within c.finish (end_of c from)
unfolding end_of
end_of-Within c from r = ground arith

abbrev pub InBounds : Cycle → Date → RentPeriod → Type 0
InBounds c cutoff p =
    (p.period_start ≤ cutoff)
    × Within c.finish p.period_end
    × (p.due_date ≡ p.period_start)
    × (p.amount_paise ≤ c.rent)

choice_le : (b : Bool) (x y n : ℕ) → x ≤ n → y ≤ n → (if b then x else y) ≤ n
choice_le true x y n h k = h
choice_le false x y n h k = k

period_at-InBounds :
    (c : Cycle) (cutoff : Date) (i : ℕ) (from : Date)
    → from ≤ cutoff
    → Within c.finish (end_of c from)
    → InBounds c cutoff (period_at c i from)
unfolding period_at
period_at-InBounds c cutoff i from h w =
    (h, w, refl, choice_le _ c.rent _ c.rent (omega arith) (pro_rata_paise-le c.rent _ _))

pub periods_from-InBounds :
    (c : Cycle) (cutoff : Date) (left index : ℕ) (from : Date)
    → reached c.finish from ≡ false
    → All (InBounds c cutoff) (periods_from c cutoff left index from)
unfolding periods_from
periods_from-InBounds c cutoff zero index from r = tt
periods_from-InBounds c cutoff (suc left) index from r = ground (
  arith,
  period_at-InBounds c cutoff index from,
  end_of-Within c from r,
  periods_from-InBounds c cutoff left (index + 1) (end_of c from),
)

abbrev pub Prefix : List RentPeriod → List RentPeriod → Type 0
Prefix ps qs = (more : List RentPeriod) × (ps ++ more ≡ qs)

prefix_step :
    (stuck last : Bool) (p : RentPeriod) (ps qs : List RentPeriod)
    → Prefix ps qs
    → Prefix
        (if stuck then [] else p ∷ (if last then [] else ps))
        (if stuck then [] else p ∷ (if last then [] else qs))
prefix_step true last p ps qs h = ([], refl)
prefix_step false true p ps qs h = ([], refl)
prefix_step false false p ps qs h = (h.0, ap (λ t. p ∷ t) h.1)

leb_trans : (a b c : ℕ) → leb a b ≡ true → b ≤ c → leb a c ≡ true
leb_trans a b c h k = ground arith

-- A later cutoff only adds periods at the end.
pub periods_from-prefix :
    (c : Cycle) (near far : Date) (left index : ℕ) (from : Date)
    → near ≤ far
    → (more : List RentPeriod) × (periods_from c near left index from ++ more
        ≡ periods_from c far left index from)
unfolding periods_from
periods_from-prefix c near far zero index from h = ([], refl)
periods_from-prefix c near far (suc left) index from h =
    let later = periods_from-prefix c near far left (index + 1) (end_of c from) h in
    elim (Bool-cases (leb from near)) [
      | inr stop ↦ (periods_from c far (suc left) index from, rw stop refl)
      | inl go ↦
          rw (go, leb_trans from near far go h)
            (prefix_step (leb (end_of c from) from) (reached c.finish (end_of c from)) _ _ _ later)
    ]
