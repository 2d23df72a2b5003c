-- ===== src/Checkin/Arrival.antt =====
-- A pass is redeemed once, and only where it may be.
use rookopg.Prelude.{ℕ, ◌≤◌, ◌≡◌, refl, ◌∙◌, true, false, none, List, [], ◌∷◌, any, arith}
use rookopg.Calendar.{Date}
use rookopg.Errors.{ok}
use rookopg.Database.{Booking, CheckinToken, Db, confirmed}
use rookopg.Database.Client.{Prisma, changed}
use rookopg.Booking.Repository.{has_id}
use rookopg.Checkin.Repository.{
  PassWithBooking, ArrivalInput, record_arrival, unused, used_by, arrived,
}
use rookopg.Checkin.Service.{assert_redeemable}

none_unused :
    (pass_id : ℕ) (now : Date) (actor_id : ℕ) (rows : List CheckinToken)
    → any (unused pass_id) (changed (unused pass_id) (used_by now actor_id) rows) ≡ false
none_unused pass_id now actor_id [] = refl
none_unused pass_id now actor_id (p ∷ rows) = ground (arith, none_unused pass_id now actor_id rows)

module _ (prisma : Prisma) where
  record_arrival_lem :
      (now : Date) (input : ArrivalInput) (db : Db) {db' : Db}
      → record_arrival prisma now input db ≡ ok (true, db')
      → (db'.passes
          ≡ prisma.update_many CheckinToken
              (unused input.pass_id)
              (used_by now input.actor_id)
              db.passes)
        × (prisma.update Booking (has_id input.booking_id) arrived db.bookings ≡ ok db'.bookings)
  unfolding record_arrival
  record_arrival_lem now input db h = ground arith

  -- Once an arrival has claimed a pass, no further arrival claims it, whoever scans it and for
  -- whichever booking, and the attempt changes nothing.
  pub record_arrival_again :
      (now later : Date) (input again : ArrivalInput) (db : Db) {db' : Db}
      → again.pass_id ≡ input.pass_id
      → record_arrival prisma now input db ≡ ok (true, db')
      → record_arrival prisma later again db' ≡ ok (false, db')
  unfolding record_arrival
  record_arrival_again now later input again db {db'} same ran =
      let rows =
        (record_arrival_lem now input db ran).0
        ∙ prisma.update_many-eq CheckinToken (unused input.pass_id) (used_by now input.actor_id)
            db.passes in
      let claimed = none_unused input.pass_id now input.actor_id db.passes in
      let all_used : any (unused again.pass_id) db'.passes ≡ false = rw (same, rows) claimed in
      ground arith

  -- A pass that is accepted is neither used nor revoked, its booking is confirmed, and the time is
  -- within its validity, both ends included.
  assert_redeemable_lem :
      (now : Date) (p : PassWithBooking) (db : Db)
      → (assert_redeemable now p db).0 ≡ ok tt
      → (p.pass.used_at ≡ none)
        × (p.pass.revoked_at ≡ none)
        × (p.booking.status ≡ confirmed)
        × (p.pass.valid_from ≤ now)
        × (now ≤ p.pass.valid_to)
  unfolding assert_redeemable
  assert_redeemable_lem now p db h = ground arith
