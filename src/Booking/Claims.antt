-- ===== src/Booking/Claims.antt =====
-- The booking transactions keep the claims on a bed disjoint, and releasing frees the bed.
use Prim.Native.String.{String}
use rookopg.Prelude.{
  ℕ, ◌+◌, ◌≡◌, refl, Bool, true, false, Option, none, some, List, ◌∷◌, ◌==◌, any, if◌then◌else◌,
  arith, ==_refl, is_some,
}
use rookopg.Calendar.{Date}
use rookopg.Errors.{ok, >>=-ok}
use rookopg.Database.{
  BedAllocation, Booking, BookingStatus, Db, is_id, overlaps, tenancy_claim, booking_claim, Tenancy,
}
use rookopg.Database.Client.{Prisma, changed}
use rookopg.Database.Claims.{Disjoint, Narrows, Disjoint-changed, Disjoint-new}
use rookopg.Booking.Repository.{
  HoldInput, PaidInput, NewPass, hold_bed, hold_claim, lapsed_hold, let_go, claims, mark_paid,
  record_capture, release_booking, approve, on_confirmed, confirm_booking, approved, paid_booking,
  has_id, attach_order, record_event_once, mark_event_processed, find_by_id,
}

module _ (prisma : Prisma) where
  abbrev pub swept : Date → ℕ → Db → List BedAllocation
  swept now bed_id db =
      prisma.update_many BedAllocation (lapsed_hold now bed_id) (let_go now "Hold expired")
        db.allocations

  pub new_row :
      (now : Date) (input : HoldInput) (db : Db)
      → prisma.update BedAllocation
          (λ a. a.id == db.next_id)
          (λ a. record a { booking_id = some (db.next_id + 1) })
          (prisma.create BedAllocation (hold_claim input db.next_id) (swept now input.bed_id db))
        ≡ ok (
            changed
              (λ a. a.id == db.next_id)
              (λ a. record a { booking_id = some (db.next_id + 1) })
              (hold_claim input db.next_id ∷ swept now input.bed_id db))
  new_row now input db =
      let found : any (λ (a : BedAllocation). a.id == db.next_id)
            (hold_claim input db.next_id ∷ swept now input.bed_id db)
          ≡ true =
        ground (arith, ==_refl db.next_id) in
      rw (prisma.create-eq BedAllocation (hold_claim input db.next_id) (swept now input.bed_id db))
        (prisma.update_found BedAllocation (λ a. a.id == db.next_id)
          (λ a. record a { booking_id = some (db.next_id + 1) })
          (hold_claim input db.next_id ∷ swept now input.bed_id db) found)

  hold_bed_lem :
      (now : Date) (input : HoldInput) (db : Db) {id : ℕ} {db' : Db}
      → hold_bed prisma now input db ≡ ok (id, db')
      → (any (overlaps (hold_claim input db.next_id)) (swept now input.bed_id db) ≡ false)
        × (db'.allocations
            ≡ changed
                (λ a. a.id == db.next_id)
                (λ a. record a { booking_id = some (db.next_id + 1) })
                (hold_claim input db.next_id ∷ swept now input.bed_id db))
  unfolding hold_bed
  hold_bed_lem now input db h = ground (arith, new_row now input db)

  pub updated-Disjoint :
      (p : BedAllocation → Bool) (f : BedAllocation → BedAllocation) (rows : List BedAllocation)
      → ((a : BedAllocation) → Narrows (f a) a)
      → Disjoint rows
      → Disjoint (prisma.update_many BedAllocation p f rows)
  updated-Disjoint p f rows narrow h =
      rw (prisma.update_many-eq BedAllocation p f rows) (Disjoint-changed p f rows narrow h)

  pub let_go-Narrows :
      (now : Date) (reason : String) (a : BedAllocation) → Narrows (let_go now reason a) a
  let_go-Narrows now reason a = record {
    bed = refl;
    start = refl;
    until = refl;
    live = λ h. ground arith;
  }

  -- Where `holdBed` succeeds, no two active claims on a bed overlap if none did before.
  pub hold_bed-Disjoint :
      (now : Date) (input : HoldInput) (db : Db) {id : ℕ} {db' : Db}
      → Disjoint db.allocations
      → hold_bed prisma now input db ≡ ok (id, db')
      → Disjoint db'.allocations
  hold_bed-Disjoint now input db h ran =
      let found = hold_bed_lem now input db ran in
      let claim = hold_claim input db.next_id in
      let rows = swept now input.bed_id db in
      let kept =
        updated-Disjoint (lapsed_hold now input.bed_id) (let_go now "Hold expired") db.allocations
          (let_go-Narrows now "Hold expired") h in
      rw found.1 (
        Disjoint-changed (λ a. a.id == db.next_id)
          (λ a. record a { booking_id = some (db.next_id + 1) }) (claim ∷ rows)
          (λ a. record { bed = refl; start = refl; until = refl; live = λ h. h })
          (Disjoint-new claim rows found.0 kept))

  -- `releaseBooking`, too, keeps claims disjoint.
  release_booking_rows :
      (now : Date) (booking_id : ℕ) (from to : BookingStatus) (reason : String) (actor : Option ℕ)
      (db : Db) {db' : Db}
      → release_booking prisma now booking_id from to reason actor db ≡ ok db'
      → db'.allocations
        ≡ prisma.update_many BedAllocation (claims booking_id) (let_go now reason) db.allocations
  unfolding release_booking
  release_booking_rows now booking_id from to reason actor db h = ground arith

  pub release_booking-Disjoint :
      (now : Date) (booking_id : ℕ) (from to : BookingStatus) (reason : String) (actor : Option ℕ)
      (db : Db) {db' : Db}
      → Disjoint db.allocations
      → release_booking prisma now booking_id from to reason actor db ≡ ok db'
      → Disjoint db'.allocations
  release_booking-Disjoint now booking_id from to reason actor db h ran =
      rw (release_booking_rows now booking_id from to reason actor db ran) (
        updated-Disjoint (claims booking_id) (let_go now reason) db.allocations
          (let_go-Narrows now reason) h)

  abbrev to_tenancy : ℕ → BedAllocation → BedAllocation
  to_tenancy tenancy_id a = record a { kind = tenancy_claim; tenancy_id = some tenancy_id }

  -- Claims whose kind, tenancy or expiry alone change stay disjoint.
  same_rows_Disjoint :
      (rows rows' : List BedAllocation) → rows' ≡ rows → Disjoint rows → Disjoint rows'
  same_rows_Disjoint rows rows' same h = rw same h

  confirm_booking-Disjoint :
      (now : Date) (pass : NewPass) (found : Option Booking) (has_tenancy : Bool) (db : Db)
      {db' : Db}
      → Disjoint db.allocations
      → confirm_booking prisma now pass found has_tenancy db ≡ ok db'
      → Disjoint db'.allocations
  unfolding confirm_booking
  confirm_booking-Disjoint now pass none has_tenancy db h ran = ground arith
  confirm_booking-Disjoint now pass (some b) true db {db'} h ran =
      same_rows_Disjoint db.allocations db'.allocations (ground arith) h
  confirm_booking-Disjoint now pass (some b) false db {db'} h ran =
      same_rows_Disjoint
        (prisma.update_many BedAllocation (claims b.id) (to_tenancy db.next_id) db.allocations)
        db'.allocations (ground arith)
        (updated-Disjoint (claims b.id) (to_tenancy db.next_id) db.allocations
          (λ a. record { bed = refl; start = refl; until = refl; live = λ h. h }) h)

  on_confirmed-Disjoint :
      (now : Date) (booking_id : ℕ) (pass : NewPass) (db : Db) {db' : Db}
      → Disjoint db.allocations
      → on_confirmed prisma now booking_id pass db ≡ ok db'
      → Disjoint db'.allocations
  unfolding on_confirmed
  on_confirmed-Disjoint now booking_id pass db h ran =
      confirm_booking-Disjoint now pass (find_by_id prisma booking_id db)
        (is_some (prisma.find_first Tenancy (λ t. is_id booking_id t.booking_id) db.tenancies)) db h
        ran

  pub approve-Disjoint :
      (now : Date) (booking_id actor_id : ℕ) (pass : NewPass) (db : Db) {db' : Db}
      → Disjoint db.allocations
      → approve prisma now booking_id actor_id pass db ≡ ok db'
      → Disjoint db'.allocations
  unfolding approve
  approve-Disjoint now booking_id actor_id pass db h ran =
      let (bookings, _, confirmed_ran) =
        >>=-ok {m = prisma.update Booking (has_id booking_id) (approved now) db.bookings} ran in
      on_confirmed-Disjoint now booking_id pass _ h confirmed_ran

  record_capture_rows :
      (now : Date) (input : PaidInput) (db : Db) {db' : Db}
      → record_capture prisma now input db ≡ ok db'
      → db'.allocations ≡ db.allocations
  unfolding record_capture
  record_capture_rows now input db h = ground arith

  abbrev to_booking : BedAllocation → BedAllocation
  to_booking a = record a { kind = booking_claim; expires_at = none }

  confirmed_if-Disjoint :
      (auto_confirm : Bool) (now : Date) (booking_id : ℕ) (pass : NewPass) (db : Db) {db' : Db}
      → Disjoint db.allocations
      → (if auto_confirm then on_confirmed prisma now booking_id pass db else ok db) ≡ ok db'
      → Disjoint db'.allocations
  confirmed_if-Disjoint true now booking_id pass db h ran =
      on_confirmed-Disjoint now booking_id pass db h ran
  confirmed_if-Disjoint false now booking_id pass db {db'} h ran =
      same_rows_Disjoint db.allocations db'.allocations (ground arith) h

  pub mark_paid-Disjoint :
      (now : Date) (input : PaidInput) (db : Db) {db' : Db}
      → Disjoint db.allocations
      → mark_paid prisma now input db ≡ ok db'
      → Disjoint db'.allocations
  unfolding mark_paid
  mark_paid-Disjoint now input db {db'} h ran =
      let (recorded, captured, updated) = >>=-ok {m = record_capture prisma now input db} ran in
      let (bookings, _, moved_ran) =
        >>=-ok
          {m = prisma.update Booking (has_id input.booking_id) (paid_booking now input)
            recorded.bookings}
          updated in
      let (done, confirmed_ran, last) = >>=-ok moved_ran in
      let moved =
        updated-Disjoint (claims input.booking_id) to_booking recorded.allocations
          (λ a. record { bed = refl; start = refl; until = refl; live = λ h. h })
          (same_rows_Disjoint db.allocations recorded.allocations
            (record_capture_rows now input db captured) h) in
      same_rows_Disjoint done.allocations db'.allocations (ground arith) (
        confirmed_if-Disjoint input.auto_confirm now input.booking_id input.pass _ moved
          confirmed_ran)

  pub attach_order-Disjoint :
      (booking_id order_id : ℕ) (db : Db) {db' : Db}
      → Disjoint db.allocations
      → attach_order prisma booking_id order_id db ≡ ok db'
      → Disjoint db'.allocations
  unfolding attach_order
  attach_order-Disjoint booking_id order_id db {db'} h ran =
      same_rows_Disjoint db.allocations db'.allocations (ground arith) h

  pub record_event_once-Disjoint :
      (event_id : ℕ) (booking_id : Option ℕ) (db : Db) {fresh : Bool} {db' : Db}
      → Disjoint db.allocations
      → record_event_once prisma event_id booking_id db ≡ (fresh, db')
      → Disjoint db'.allocations
  unfolding record_event_once
  record_event_once-Disjoint event_id booking_id db {fresh} {db'} h ran =
      same_rows_Disjoint db.allocations db'.allocations (ground arith) h

  pub mark_event_processed-Disjoint :
      (now : Date) (event_id : ℕ) (result : String) (db : Db) {db' : Db}
      → Disjoint db.allocations
      → mark_event_processed prisma now event_id result db ≡ db'
      → Disjoint db'.allocations
  unfolding mark_event_processed
  mark_event_processed-Disjoint now event_id result db {db'} h ran =
      same_rows_Disjoint db.allocations db'.allocations (ground arith) h
