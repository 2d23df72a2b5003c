-- ===== src/Tenancy/Repository.antt =====
-- tenancy.repository.ts. The queue on the bed's row and the time limits are not modelled: a
-- transaction runs alone. What is read only to be displayed is left out.
mod Rows
unfoldable pub use Rows.*
use Prim.Native.String.{String}
use rookopg.Prelude.{
  ℕ, ◌+◌, Bool, true, false, not, ◌&&◌, Option, none, some, List, [], ◌∷◌, ◌==◌, leb, ltb, any,
  is_none, or_else,
}
use rookopg.Calendar.{Date}
use rookopg.Errors.{
  Result, ok, throw, bed_already_taken, check_violation, record_missing, require, ◌>>=◌, ◌>>◌,
}
use rookopg.Database.{
  tenancy_claim, AllocationKind, active, offline, checked_in, money_held, Booking,
  BookingStatusHistory, Tenancy, TenancyStatus, tenancy_active, notice_given, ended,
  TenancyStatusHistory, BedAllocation, CheckinEvent, check_in, check_out, manual, User, unclaimed,
  Organisation, Room, Bed, BedStatus, Property, Db, is_active, is_id, overlaps,
}
use rookopg.Database.Client.{Prisma}
use rookopg.Booking.Repository.{lapsed_hold, let_go, moved_to}

module _ (prisma : Prisma) where
  unfoldable pub find_bed_for_seating : ℕ → Db → Option SeatableBed
  find_bed_for_seating bed_id db =
      elim (prisma.find_first Bed (λ b. (b.id == bed_id) && is_none b.deleted_at) db.beds) [
        | none ↦ none
        | some bed ↦
            joined_bed bed (prisma.find_first Room (λ r. r.id == bed.room_id) db.rooms)
              (prisma.find_first Property (λ p. p.id == bed.property_id) db.properties)
      ]

  unfoldable pub release_expired_holds : Date → ℕ → Db → Db
  release_expired_holds now bed_id db = record db {
    allocations =
        prisma.update_many BedAllocation (lapsed_hold now bed_id) (let_go now "Hold expired")
          db.allocations;
  }

  unfoldable pub seat_walk_in : Date → SeatInput → Db → Result (Tenancy × Db)
  seat_walk_in now input db = do
    let claim = seat_claim input db.next_id
    require (not (any (overlaps claim) db.allocations)) bed_already_taken
    let user =
        upserted prisma input (db.next_id + 1)
          (prisma.find_first User (λ u. u.phone == input.phone) db.users) db.users
    let booking_id = db.next_id + 2
    let tenancy_id = db.next_id + 3
    let tenancy = walk_in_tenancy input tenancy_id booking_id user.0
    allocations ←
        prisma.update BedAllocation (λ a. a.id == db.next_id)
          (λ a. record a { booking_id = some booking_id; tenancy_id = some tenancy_id })
          (prisma.create BedAllocation claim db.allocations)
    ok (
      tenancy,
      record db {
        next_id = db.next_id + 4;
        allocations = allocations;
        users = user.1;
        bookings = prisma.create Booking (walk_in_booking input booking_id user.0) db.bookings;
        booking_history =
            prisma.create BookingStatusHistory
              (moved_to booking_id none checked_in (some input.actor_id) "Walk-in seated by staff")
              db.booking_history;
        tenancies = prisma.create Tenancy tenancy db.tenancies;
        tenancy_history =
            prisma.create TenancyStatusHistory
              (turned_to tenancy_id none tenancy_active input.actor_id
                (some "Walk-in seated by staff"))
              db.tenancy_history;
        checkin_events =
            prisma.create CheckinEvent
              (record {
                booking_id = some booking_id;
                tenancy_id = some tenancy_id;
                property_id = input.property_id;
                kind = check_in;
                method = manual;
                actor_id = input.actor_id;
              })
              db.checkin_events;
        organisations =
            prisma.update_many Organisation
              (λ o. (o.id == input.org_id) && is_none o.free_period_starts_at)
              (λ o. record o { free_period_starts_at = some now }) db.organisations;
      },
    )

  unfoldable pub list_for_property : ℕ → (TenancyStatus → Bool) → Db → List Tenancy
  list_for_property property_id wanted db =
      prisma.find_many Tenancy (λ t. (t.property_id == property_id) && wanted t.status) db.tenancies

  unfoldable pub find_tenancy : ℕ → Db → Option Tenancy
  find_tenancy tenancy_id db = prisma.find_first Tenancy (has_tenancy_id tenancy_id) db.tenancies

  -- The CHECKs on both tables and the exclusion constraint hold for the rows that were changed.
  unfoldable pub give_notice : Date → ℕ → Date → ℕ → Option String → Db → Result Db
  give_notice now tenancy_id vacate_date actor_id reason db = do
    tenancies ←
        prisma.update Tenancy (has_tenancy_id tenancy_id) (noticed now vacate_date) db.tenancies
    require
        (not (any (λ t. has_tenancy_id tenancy_id t && ltb vacate_date t.start_date) db.tenancies))
        check_violation
    let allocations =
        prisma.update_many BedAllocation (stays tenancy_id)
          (λ a. record a { end_date = some vacate_date }) db.allocations
    require (not (any (λ a. stays tenancy_id a && leb vacate_date a.start_date) db.allocations))
        check_violation
    require (apart allocations) bed_already_taken
    ok (record db {
      tenancies = tenancies;
      allocations = allocations;
      tenancy_history =
          prisma.create TenancyStatusHistory
            (turned_to tenancy_id (some tenancy_active) notice_given actor_id reason)
            db.tenancy_history;
    })

  -- `checkOut`, once the tenancy has been read.
  unfoldable pub check_out_tenancy :
      Date → Option Tenancy → ℕ → Date → ℕ → Option String → Db → Result Db
  check_out_tenancy now none tenancy_id vacate_date actor_id reason db = throw record_missing
  check_out_tenancy now (some current) tenancy_id vacate_date actor_id reason db = do
    tenancies ← prisma.update Tenancy (has_tenancy_id tenancy_id) (left_on vacate_date) db.tenancies
    require
        (not (any (λ t. has_tenancy_id tenancy_id t && ltb vacate_date t.start_date) db.tenancies))
        check_violation
    ok (record db {
      tenancies = tenancies;
      allocations =
          prisma.update_many BedAllocation (claims_of tenancy_id)
            (let_go now (or_else reason "Tenant checked out")) db.allocations;
      checkin_events =
          prisma.create CheckinEvent
            (record {
              booking_id = current.booking_id;
              tenancy_id = some tenancy_id;
              property_id = current.property_id;
              kind = check_out;
              method = manual;
              actor_id = actor_id;
            })
            db.checkin_events;
      tenancy_history =
          prisma.create TenancyStatusHistory
            (turned_to tenancy_id (some current.status) ended actor_id reason) db.tenancy_history;
    })

  unfoldable pub check_out_repo : Date → ℕ → Date → ℕ → Option String → Db → Result Db
  check_out_repo now tenancy_id vacate_date actor_id reason db =
      check_out_tenancy now (find_tenancy tenancy_id db) tenancy_id vacate_date actor_id reason db
