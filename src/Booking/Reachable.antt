-- ===== src/Booking/Reachable.antt =====
-- The transactions of booking.repository.ts and tenancy.repository.ts as steps of the database, and
-- what every sequence keeps.
use Prim.Native.String.{String}
use rookopg.Prelude.{ℕ, ◌≡◌, Bool, Option, [], sym}
use rookopg.Calendar.{Date}
use rookopg.Errors.{ok}
use rookopg.Database.{BookingStatus, Tenancy, Db}
use rookopg.Database.Client.{Prisma}
use rookopg.Database.Claims.{Disjoint}
use rookopg.Booking.Repository.{
  HoldInput, PaidInput, NewPass, hold_bed, attach_order, mark_paid, release_booking, approve,
  record_event_once, mark_event_processed,
}
use rookopg.Booking.Claims.{
  hold_bed-Disjoint, release_booking-Disjoint, approve-Disjoint, mark_paid-Disjoint,
  attach_order-Disjoint, mark_event_processed-Disjoint, record_event_once-Disjoint,
}
use rookopg.Tenancy.Repository.{
  SeatInput, release_expired_holds, seat_walk_in, give_notice, check_out_repo,
}
use rookopg.Tenancy.Claims.{
  release_expired_holds-Disjoint, seat_walk_in-Disjoint, give_notice-Disjoint,
  check_out_repo-Disjoint,
}

module _ (prisma : Prisma) where
  -- A transaction that commits. One that throws leaves the database as it was.
  pub data Commit (db db' : Db) : Type 0 where
    hold_commit :
        (now : Date) (input : HoldInput) (id : ℕ)
        → hold_bed prisma now input db ≡ ok (id, db')
        → Commit db db'
    order_commit :
        (booking_id order_id : ℕ)
        → attach_order prisma booking_id order_id db ≡ ok db'
        → Commit db db'
    paid_commit :
        (now : Date) (input : PaidInput) → mark_paid prisma now input db ≡ ok db' → Commit db db'
    release_commit :
        (now : Date) (booking_id : ℕ) (from to : BookingStatus) (reason : String) (actor : Option ℕ)
        → release_booking prisma now booking_id from to reason actor db ≡ ok db'
        → Commit db db'
    approve_commit :
        (now : Date) (booking_id actor_id : ℕ) (pass : NewPass)
        → approve prisma now booking_id actor_id pass db ≡ ok db'
        → Commit db db'
    event_commit :
        (event_id : ℕ) (booking_id : Option ℕ) (fresh : Bool)
        → record_event_once prisma event_id booking_id db ≡ (fresh, db')
        → Commit db db'
    processed_commit :
        (now : Date) (event_id : ℕ) (result : String)
        → mark_event_processed prisma now event_id result db ≡ db'
        → Commit db db'
    sweep_commit :
        (now : Date) (bed_id : ℕ) → release_expired_holds prisma now bed_id db ≡ db' → Commit db db'
    seat_commit :
        (now : Date) (input : SeatInput) (t : Tenancy)
        → seat_walk_in prisma now input db ≡ ok (t, db')
        → Commit db db'
    notice_commit :
        (now : Date) (tenancy_id : ℕ) (vacate_date : Date) (actor_id : ℕ) (reason : Option String)
        → give_notice prisma now tenancy_id vacate_date actor_id reason db ≡ ok db'
        → Commit db db'
    check_out_commit :
        (now : Date) (tenancy_id : ℕ) (vacate_date : Date) (actor_id : ℕ) (reason : Option String)
        → check_out_repo prisma now tenancy_id vacate_date actor_id reason db ≡ ok db'
        → Commit db db'

  -- What the transactions reach from a database without claims.
  pub data Reachable : Db → Type 0 where
    start : {db : Db} → db.allocations ≡ [] → Reachable db
    next : {db db' : Db} → Reachable db → Commit db db' → Reachable db'

  Commit-Disjoint :
      {db db' : Db} → Commit db db' → Disjoint db.allocations → Disjoint db'.allocations
  Commit-Disjoint {db} (hold_commit now input id ran) h =
      hold_bed-Disjoint prisma now input db h ran
  Commit-Disjoint {db} (order_commit booking_id order_id ran) h =
      attach_order-Disjoint prisma booking_id order_id db h ran
  Commit-Disjoint {db} (paid_commit now input ran) h = mark_paid-Disjoint prisma now input db h ran
  Commit-Disjoint {db} (release_commit now booking_id from to reason actor ran) h =
      release_booking-Disjoint prisma now booking_id from to reason actor db h ran
  Commit-Disjoint {db} (approve_commit now booking_id actor_id pass ran) h =
      approve-Disjoint prisma now booking_id actor_id pass db h ran
  Commit-Disjoint {db} (event_commit event_id booking_id fresh ran) h =
      record_event_once-Disjoint prisma event_id booking_id db h ran
  Commit-Disjoint {db} (processed_commit now event_id result ran) h =
      mark_event_processed-Disjoint prisma now event_id result db h ran
  Commit-Disjoint {db} (sweep_commit now bed_id ran) h =
      rw (sym ran) (release_expired_holds-Disjoint prisma now bed_id db h)
  Commit-Disjoint {db} (seat_commit now input t ran) h =
      seat_walk_in-Disjoint prisma now input db h ran
  Commit-Disjoint {db} (notice_commit now tenancy_id vacate_date actor_id reason ran) h =
      give_notice-Disjoint prisma now tenancy_id vacate_date actor_id reason db ran
  Commit-Disjoint {db} (check_out_commit now tenancy_id vacate_date actor_id reason ran) h =
      check_out_repo-Disjoint prisma now tenancy_id vacate_date actor_id reason db h ran

  -- In every database that the transactions of bookings and tenancies reach, from one without claims,
  -- no two active claims on the same bed have dates that overlap.
  pub Reachable-Disjoint : {db : Db} → Reachable db → Disjoint db.allocations
  Reachable-Disjoint (start empty) = rw empty tt
  Reachable-Disjoint (next before commit) = Commit-Disjoint commit (Reachable-Disjoint before)
