-- ===== src/Inventory/Board.antt =====
-- What the board of beds shows, against the claims in the table.
use rookopg.Prelude.{
  ℕ, ◌≡◌, ◌≤◌, refl, sym, ap, ◌∙◌, Bool, false, not, ◌&&◌, ◌||◌, none, some, List, [], ◌∷◌, ◌==◌,
  ltb, leb, any, map, select, sum_of, one_if, if◌then◌else◌, arith, Bool-cases, inl, inr, All,
  is_some, or_else,
}
use mathlib.Core.Path.{subst}
use rookopg.Calendar.{Date}
use rookopg.Database.{BedAllocation, Db}
use rookopg.Database.Client.{Prisma, Ascending}
use rookopg.Inventory.Repository.{
  BedOccupancy, noted, note_each, vacant, is_live_claim, occupancy_for,
}

-- A bed's claim that has begun, and one that has not.
abbrev pub runs : Date → ℕ → BedAllocation → Bool
runs today k a = (k == a.bed_id) && leb a.start_date today

abbrev pub is_ahead : Date → ℕ → BedAllocation → Bool
is_ahead today k a = (k == a.bed_id) && not (leb a.start_date today)

abbrev noted_for : Date → ℕ → BedAllocation → BedOccupancy → BedOccupancy
noted_for today k a o = if k == a.bed_id then noted today a o else o

-- The loop as one bed sees it.
bed_after : Date → ℕ → List BedAllocation → BedOccupancy → BedOccupancy
bed_after today k [] o = o
bed_after today k (a ∷ rest) o = bed_after today k rest (noted_for today k a o)

note_one :
    (today : Date) (a : BedAllocation) (o : ℕ → BedOccupancy) (ids : List ℕ)
    → map
        (λ (e : ℕ × BedOccupancy). if e.0 == a.bed_id then (e.0, noted today a e.1) else e)
        (map (λ k. (k, o k)) ids)
      ≡ map (λ k. (k, noted_for today k a (o k))) ids
note_one today a o [] = refl
note_one today a o (k ∷ ids) = elim (Bool-cases (k == a.bed_id)) [
  | inl here ↦ rw here (ap (λ r. (k, noted today a (o k)) ∷ r) (note_one today a o ids))
  | inr other ↦ rw other (ap (λ r. (k, o k) ∷ r) (note_one today a o ids))
]

note_each-eq :
    (today : Date) (rows : List BedAllocation) (o : ℕ → BedOccupancy) (ids : List ℕ)
    → note_each today rows (map (λ k. (k, o k)) ids)
      ≡ map (λ k. (k, bed_after today k rows (o k))) ids
unfolding note_each bed_after
note_each-eq today [] o ids = refl
note_each-eq today (a ∷ rest) o ids =
    ap (note_each today rest) (note_one today a o ids)
    ∙ note_each-eq today rest (λ k. noted_for today k a (o k)) ids

bed_after-occupied :
    (today : Date) (k : ℕ) (rows : List BedAllocation) (o : BedOccupancy)
    → (bed_after today k rows o).occupied ≡ o.occupied || any (runs today k) rows
unfolding bed_after noted
bed_after-occupied today k [] o = ground arith
bed_after-occupied today k (a ∷ rest) o =
    ground (arith, bed_after-occupied today k rest (noted_for today k a o))

bed_after-reserved :
    (today : Date) (k : ℕ) (rows : List BedAllocation) (o : BedOccupancy)
    → is_some (bed_after today k rows o).reserved_from
      ≡ is_some o.reserved_from || any (is_ahead today k) rows
unfolding bed_after noted
bed_after-reserved today k [] o = ground arith
bed_after-reserved today k (a ∷ rest) o =
    ground (arith, bed_after-reserved today k rest (noted_for today k a o))

reserved_stays :
    (today : Date) (k : ℕ) (rows : List BedAllocation) (o : BedOccupancy) (d : Date)
    → o.reserved_from ≡ some d
    → (bed_after today k rows o).reserved_from ≡ some d
unfolding bed_after noted
reserved_stays today k [] o d h = h
reserved_stays today k (a ∷ rest) o d h =
    reserved_stays today k rest (noted_for today k a o) d (ground arith)

none_sooner :
    (today : Date) (k : ℕ) (d : Date) (rows : List BedAllocation)
    → All (λ a. d ≤ a.start_date) rows
    → any (λ a. is_ahead today k a && ltb a.start_date d) rows ≡ false
none_sooner today k d [] h = refl
none_sooner today k d (a ∷ rest) h = ground (arith, none_sooner today k d rest h.1, h.0)

-- In ascending order, the first claim that is ahead is the nearest.
bed_after-nearest :
    (today : Date) (k : ℕ) (rows : List BedAllocation) (o : BedOccupancy)
    → Ascending (λ a. a.start_date) rows
    → o.reserved_from ≡ none
    → any
        (λ a.
          is_ahead today k a
          && ltb a.start_date (or_else (bed_after today k rows o).reserved_from 0))
        rows
      ≡ false
unfolding bed_after noted
bed_after-nearest today k [] o up h = refl
bed_after-nearest today k (a ∷ rest) o up h = elim (Bool-cases (is_ahead today k a)) [
  | inl first ↦
      let taken : (noted_for today k a o).reserved_from ≡ some a.start_date = ground arith in
      let kept = reserved_stays today k rest (noted_for today k a o) a.start_date taken in
      subst
        (λ x. any (λ a'. is_ahead today k a' && ltb a'.start_date (or_else x 0)) (a ∷ rest) ≡ false)
        (sym kept) (ground (arith, none_sooner today k a.start_date rest up.0))
  | inr other ↦
      let free : (noted_for today k a o).reserved_from ≡ none = ground arith in
      let later = bed_after-nearest today k rest (noted_for today k a o) up.1 free in ground arith
]

any-sum :
    {A : Type 0} (q : A → Bool) (xs : List A) → any q xs ≡ not (sum_of (λ x. one_if (q x)) xs == 0)
any-sum q [] = refl
any-sum q (x ∷ xs) = ground (arith, any-sum q xs)

any-select :
    {A : Type 0} (p q : A → Bool) (xs : List A) → any q (select p xs) ≡ any (λ x. p x && q x) xs
any-select p q [] = refl
any-select p q (x ∷ xs) = ground (arith, any-select p q xs)

module _ (prisma : Prisma) (today : Date) (bed_ids : List ℕ) (db : Db) where
  abbrev live : List BedAllocation
  live =
      prisma.find_ordered BedAllocation (λ a. a.start_date) (is_live_claim today bed_ids)
        db.allocations

  any_live :
      (q : BedAllocation → Bool)
      → any q live ≡ any (λ a. is_live_claim today bed_ids a && q a) db.allocations
  any_live q =
      any-sum q live
      ∙ ap (λ n. not (n == 0))
          (prisma.find_ordered-sum BedAllocation (λ a. a.start_date) (is_live_claim today bed_ids)
            db.allocations (λ a. one_if (q a)))
      ∙ sym (any-sum q (select (is_live_claim today bed_ids) db.allocations))
      ∙ any-select (is_live_claim today bed_ids) q db.allocations

  -- What the board says of a bed: it is occupied exactly if a live claim on it has begun, it is reserved
  -- exactly if one has not, and then from the nearest such claim's first day.
  abbrev pub IsShown : ℕ × BedOccupancy → Type 0
  IsShown e =
      (e.1.occupied ≡ any (λ a. is_live_claim today bed_ids a && runs today e.0 a) db.allocations)
      × (is_some e.1.reserved_from
          ≡ any (λ a. is_live_claim today bed_ids a && is_ahead today e.0 a) db.allocations)
      × (any
            (λ a.
              is_live_claim today bed_ids a
              && (is_ahead today e.0 a && ltb a.start_date (or_else e.1.reserved_from 0)))
            db.allocations
          ≡ false)

  bed_after-IsShown : (k : ℕ) → IsShown (k, bed_after today k live vacant)
  bed_after-IsShown k = (
    bed_after-occupied today k live vacant ∙ any_live (runs today k),
    bed_after-reserved today k live vacant ∙ any_live (is_ahead today k),
    sym (
          any_live (λ a.
            is_ahead today k a
            && ltb a.start_date (or_else (bed_after today k live vacant).reserved_from 0)))
        ∙ bed_after-nearest today k live vacant
            (prisma.find_ordered-Ascending BedAllocation (λ a. a.start_date)
              (is_live_claim today bed_ids) db.allocations)
            refl,
  )

  All-IsShown : (ids : List ℕ) → All IsShown (map (λ k. (k, bed_after today k live vacant)) ids)
  All-IsShown [] = tt
  All-IsShown (k ∷ ids) = (bed_after-IsShown k, All-IsShown ids)

  -- The board has an entry for each bed that was asked for, and every entry says what the active claims
  -- on those beds that end after today say: occupied exactly if one has begun, and reserved exactly if
  -- one has not, from the first day of the nearest.
  pub occupancy_for_lem :
      (map (λ e. e.0) (occupancy_for prisma today bed_ids db) ≡ bed_ids)
      × All IsShown (occupancy_for prisma today bed_ids db)
  unfolding occupancy_for
  occupancy_for_lem =
      rw (note_each-eq today live (λ k. vacant) bed_ids) (keys bed_ids, All-IsShown bed_ids)
    where
      keys :
          (ids : List ℕ)
          → map (λ (e : ℕ × BedOccupancy). e.0) (map (λ k. (k, bed_after today k live vacant)) ids)
            ≡ ids
      keys [] = refl
      keys (k ∷ ids) = ap (◌∷◌ k) (keys ids)
