-- ===== src/Tests/Booking.antt =====
-- The booking theorems at sample rows.
use rookopg.Prelude.{◌≡◌, refl, true, none, some, [], ◌∷◌, arith}
use rookopg.Errors.{ok}
use rookopg.Database.{Db, pending_payment, overlaps, confirmed}
use rookopg.Database.Client.{changed}
use rookopg.Database.Claims.{Disjoint}
use rookopg.Booking.Repository.{
  hold_bed, approve, approved, mark_paid, paid_booking, moved_to, has_id, record_capture,
  on_confirmed, confirm_booking, find_by_id, hold_claim, held_booking,
}
use rookopg.Booking.Reachable.{start, next, hold_commit, Reachable-Disjoint}
use rookopg.Booking.Confirm.{approve_lem, mark_paid_lem, tenancies_of, payment_known, HasStatus}
use rookopg.Tests.ListClient.{list_prisma}
use rookopg.Tests.Samples.{empty_db, held_db, sample_hold, sample_pass, sample_paid, db_of}

abbrev first_hold : Db
first_hold = record empty_db {
  next_id = 3;
  allocations = record (hold_claim sample_hold 1) { booking_id = some 2 } ∷ [];
  bookings = held_booking sample_hold 2 ∷ [];
  booking_history = moved_to 2 none pending_payment none "Bed held during checkout" ∷ [];
}

held_first : hold_bed list_prisma 0 sample_hold empty_db ≡ ok (2, first_hold)
unfolding hold_bed overlaps
held_first = refl

Reachable-Disjoint_example : Disjoint first_hold.allocations
Reachable-Disjoint_example =
    Reachable-Disjoint list_prisma (next (start refl) (hold_commit 0 sample_hold 2 held_first))

approved_first :
    approve list_prisma 5 2 6 sample_pass held_db
    ≡ ok (db_of (approve list_prisma 5 2 6 sample_pass held_db))
unfolding approve on_confirmed confirm_booking find_by_id
approved_first = refl

approve_lem_example :
    ((db_of (approve list_prisma 5 2 6 sample_pass held_db)).bookings
      ≡ changed (has_id 2) (approved 5) held_db.bookings)
    × HasStatus 2 confirmed (db_of (approve list_prisma 5 2 6 sample_pass held_db)).bookings
    × (tenancies_of 2 (db_of (approve list_prisma 5 2 6 sample_pass held_db)).tenancies ≡ 1)
approve_lem_example = approve_lem list_prisma 5 2 6 sample_pass held_db (omega arith) approved_first

paid_first :
    mark_paid list_prisma 5 sample_paid held_db
    ≡ ok (db_of (mark_paid list_prisma 5 sample_paid held_db))
unfolding mark_paid record_capture on_confirmed confirm_booking find_by_id
paid_first = refl

mark_paid_lem_example :
    ((db_of (mark_paid list_prisma 5 sample_paid held_db)).bookings
      ≡ changed (has_id 2) (paid_booking 5 sample_paid) held_db.bookings)
    × HasStatus 2 confirmed (db_of (mark_paid list_prisma 5 sample_paid held_db)).bookings
    × (payment_known list_prisma 31 (db_of (mark_paid list_prisma 5 sample_paid held_db)) ≡ true)
    × (tenancies_of 2 (db_of (mark_paid list_prisma 5 sample_paid held_db)).tenancies ≡ 1)
mark_paid_lem_example =
    mark_paid_lem list_prisma 5 sample_paid held_db (omega arith) refl paid_first
