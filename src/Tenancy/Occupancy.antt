-- ===== src/Tenancy/Occupancy.antt =====
-- The calendar of beds that the claims stand for: which bed is taken on which day. Nothing of ids,
-- kinds, bookings and tenancies is left in it.
use Prim.Native.String.{String}
use rookopg.Prelude.{
  ℕ, ◌+◌, ◌≡◌, ◌∙◌, ap, refl, Bool, true, false, not, ◌&&◌, ◌||◌, Option, none, some, List, [], ◌∷◌,
  ◌==◌, any, leb, ltb, arith, Bool-cases, inl, inr, or_else,
}
use rookopg.Calendar.{Date}
use rookopg.Errors.{ok}
use rookopg.Database.{BedAllocation, Tenancy, Db, is_active, is_id, overlaps}
use rookopg.Database.Client.{Prisma, changed}
use rookopg.Booking.Repository.{let_go}
use rookopg.Tenancy.Repository.{SeatInput, seat_claim, seat_walk_in, check_out_repo, claims_of}
use rookopg.Tenancy.Claims.{filled_in, seat_walk_in_rows, check_out_rows}

abbrev pub Calendar : Type 0
Calendar = ℕ → Date → Bool

-- The day lies before the end, if there is one.
abbrev pub is_before : Date → Option Date → Bool
is_before day none = true
is_before day (some until) = ltb day until

abbrev pub covers : ℕ → Date → BedAllocation → Bool
covers bed_id day a =
    is_active a.status && (a.bed_id == bed_id) && leb a.start_date day && is_before day a.end_date

abbrev pub calendar_of : List BedAllocation → Calendar
calendar_of rows bed_id day = any (covers bed_id day) rows

-- To take a bed from a day on: it is free on every such day, and then taken on these days and no others.
pub record Takes (bed_id : ℕ) (start_date : Date) (before after : Calendar) : Type 0 where
  pub free : (n : ℕ) → before bed_id (start_date + n) ≡ false
  pub taken :
      (bed : ℕ) (day : Date)
      → after bed day ≡ (((bed_id == bed) && leb start_date day) || before bed day)

free_day :
    (input : SeatInput) (id n : ℕ) (a : BedAllocation)
    → overlaps (seat_claim input id) a ≡ false
    → covers input.bed_id (input.start_date + n) a ≡ false
unfolding overlaps
free_day input id n a h = ground arith

free_days :
    (input : SeatInput) (id n : ℕ) (rows : List BedAllocation)
    → any (overlaps (seat_claim input id)) rows ≡ false
    → any (covers input.bed_id (input.start_date + n)) rows ≡ false
free_days input id n [] h = refl
free_days input id n (a ∷ rows) h =
    let here : overlaps (seat_claim input id) a ≡ false = ground arith in
    rw (free_day input id n a here) (free_days input id n rows (ground arith))

seat_covers :
    (input : SeatInput) (id bed : ℕ) (day : Date)
    → covers bed day (seat_claim input id) ≡ ((input.bed_id == bed) && leb input.start_date day)
seat_covers input id bed day = ground arith

same_days :
    (id k : ℕ) (bed : ℕ) (day : Date) (rows : List BedAllocation)
    → any (covers bed day) (changed (λ a. a.id == k) (filled_in id) rows)
      ≡ any (covers bed day) rows
same_days id k bed day [] = refl
same_days id k bed day (a ∷ rows) =
    let rest = same_days id k bed day rows in
    elim (Bool-cases (a.id == k)) [
      | inl here ↦ rw (here, rest) refl
      | inr there ↦ rw (there, rest) refl
    ]

module _ (prisma : Prisma) where
  -- A seating takes the bed from the move-in day on: no active claim was on it then, and the calendar of every
  -- other bed and of the days before is as it was.
  pub seat_walk_in-Takes :
      (now : Date) (input : SeatInput) (db : Db) {t : Tenancy} {db' : Db}
      → seat_walk_in prisma now input db ≡ ok (t, db')
      → Takes input.bed_id input.start_date
          (calendar_of db.allocations)
          (calendar_of db'.allocations)
  seat_walk_in-Takes now input db ran =
      let (free, rows) = seat_walk_in_rows prisma now input db ran in
      record {
        free = λ n. free_days input db.next_id n db.allocations free;
        taken = λ bed day. rw rows (
            same_days db.next_id db.next_id bed day (seat_claim input db.next_id ∷ db.allocations)
            ∙ ap (λ b. b || calendar_of db.allocations bed day)
                (seat_covers input db.next_id bed day));
      }

  left_days :
      (now : Date) (reason : String) (tenancy_id bed : ℕ) (day : Date) (rows : List BedAllocation)
      → any (covers bed day) (changed (claims_of tenancy_id) (let_go now reason) rows)
        ≡ any (λ a. covers bed day a && not (is_id tenancy_id a.tenancy_id)) rows
  left_days now reason tenancy_id bed day [] = refl
  left_days now reason tenancy_id bed day (a ∷ rows) =
      let rest = left_days now reason tenancy_id bed day rows in ground (arith, rest)

  -- A check-out leaves the beds taken by the claims of others, and by no claim of the tenancy.
  check_out_repo-calendar_of :
      (now : Date) (tenancy_id : ℕ) (vacate_date : Date) (actor_id : ℕ) (reason : Option String)
      (db : Db) {db' : Db}
      → check_out_repo prisma now tenancy_id vacate_date actor_id reason db ≡ ok db'
      → (bed : ℕ) (day : Date)
      → calendar_of db'.allocations bed day
        ≡ any (λ a. covers bed day a && not (is_id tenancy_id a.tenancy_id)) db.allocations
  check_out_repo-calendar_of now tenancy_id vacate_date actor_id reason db ran bed day =
      let reason' = or_else reason "Tenant checked out" in
      rw
        (
          (check_out_rows prisma now tenancy_id vacate_date actor_id reason db ran).2,
          prisma.update_many-eq BedAllocation (claims_of tenancy_id) (let_go now reason')
              db.allocations,
        )
        (left_days now reason' tenancy_id bed day db.allocations)
