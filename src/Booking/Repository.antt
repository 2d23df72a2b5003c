-- ===== src/Booking/Repository.antt =====
-- booking.repository.ts. A transaction takes the database to a new one, or throws and leaves it as
-- it was; `now` is the time that it reads. The locks and time limits of transactions are not
-- modelled: a transaction runs alone.
mod Rows
pub use Rows.*
use Prim.Native.String.{String}
use rookopg.Prelude.{
  ℕ, ◌+◌, Bool, true, false, not, ◌&&◌, ◌||◌, Option, none, some, List, ◌==◌, any, if◌then◌else◌,
  is_some,
}
use rookopg.Calendar.{Date, get_utc_date}
use rookopg.Errors.{
  Result, ok, throw, bed_already_taken, unique_violation, record_missing, require, ◌>>=◌, ◌>>◌,
  value_too_long,
}
use rookopg.Database.{
  hold, booking_claim, tenancy_claim, active, released, online, BookingStatus, pending_payment,
  pending_approval, confirmed, cancelled, rejected, tenancy_active, money_held, BedAllocation,
  Booking, BookingStatusHistory, Tenancy, TenancyStatusHistory, CheckinToken, Payment, PaymentEvent,
  Db, is_active, is_hold, is_id, is_past, overlaps,
}
use rookopg.Database.Client.{Prisma}

module _ (prisma : Prisma) where
  unfoldable pub hold_bed : Date → HoldInput → Db → Result (ℕ × Db)
  hold_bed now input db = do
    let swept =
        prisma.update_many BedAllocation (lapsed_hold now input.bed_id) (let_go now "Hold expired")
          db.allocations
    let allocation_id = db.next_id
    let booking_id = db.next_id + 1
    let claim = hold_claim input allocation_id
    require (not (any (overlaps claim) swept)) bed_already_taken
    require (not (any (λ b. is_id input.idempotency_key b.idempotency_key) db.bookings))
        unique_violation
    allocations ←
        prisma.update BedAllocation (λ a. a.id == allocation_id)
          (λ a. record a { booking_id = some booking_id }) (prisma.create BedAllocation claim swept)
    ok (
      booking_id,
      record db {
        next_id = db.next_id + 2;
        allocations = allocations;
        bookings = prisma.create Booking (held_booking input booking_id) db.bookings;
        booking_history =
            prisma.create BookingStatusHistory
              (moved_to booking_id none pending_payment none "Bed held during checkout")
              db.booking_history;
      },
    )

  unfoldable pub attach_order : ℕ → ℕ → Db → Result Db
  attach_order booking_id order_id db = do
    bookings ←
        prisma.update Booking (has_id booking_id)
          (λ b. record b { gateway_order_id = some order_id }) db.bookings
    require
        (not
          (any (λ b. is_id order_id b.gateway_order_id && not (has_id booking_id b)) db.bookings))
        unique_violation
    ok (record db { bookings = bookings })

  unfoldable pub find_by_id : ℕ → Db → Option Booking
  find_by_id booking_id db = prisma.find_first Booking (has_id booking_id) db.bookings

  unfoldable pub find_by_order_id : ℕ → Db → Option Booking
  find_by_order_id order_id db =
      prisma.find_first Booking (λ b. is_id order_id b.gateway_order_id) db.bookings

  unfoldable pub find_by_idempotency_key : ℕ → Db → Option Booking
  find_by_idempotency_key key db =
      prisma.find_first Booking (λ b. is_id key b.idempotency_key) db.bookings

  -- `onConfirmed`, once the booking and its tenancy, if any, have been read.
  unfoldable pub confirm_booking : Date → NewPass → Option Booking → Bool → Db → Result Db
  confirm_booking now pass none has_tenancy db = throw record_missing
  confirm_booking now pass (some b) true db = ok db
  confirm_booking now pass (some b) false db =
      let tenancy_id = db.next_id in
      ok (record db {
        next_id = db.next_id + 2;
        tenancies = prisma.create Tenancy (opened_tenancy tenancy_id b) db.tenancies;
        tenancy_history =
            prisma.create TenancyStatusHistory
              (record {
                tenancy_id = tenancy_id;
                from_status = none;
                to_status = tenancy_active;
                actor_id = none;
                reason = some "Booking confirmed";
              })
              db.tenancy_history;
        allocations =
            prisma.update_many BedAllocation (claims b.id)
              (λ a. record a { kind = tenancy_claim; tenancy_id = some tenancy_id }) db.allocations;
        passes = prisma.create CheckinToken (issued_pass now (db.next_id + 1) b.id pass) db.passes;
      })

  unfoldable pub on_confirmed : Date → ℕ → NewPass → Db → Result Db
  on_confirmed now booking_id pass db =
      confirm_booking now pass (find_by_id booking_id db)
        (is_some (prisma.find_first Tenancy (λ t. is_id booking_id t.booking_id) db.tenancies)) db

  -- `markPaid`: the payment is recorded unless its id is known.
  unfoldable pub record_capture : Date → PaidInput → Db → Result Db
  record_capture now input db =
      if is_some (
        prisma.find_first Payment (λ p. is_id input.gateway_payment_id p.gateway_payment_id)
          db.payments)
      then ok db
      else (do
        require (not (any (λ p. is_id input.gateway_order_id p.gateway_order_id) db.payments))
            unique_violation
        ok (record db {
          next_id = db.next_id + 1;
          payments = prisma.create Payment (captured_payment now db.next_id input) db.payments;
        }))

  unfoldable pub mark_paid : Date → PaidInput → Db → Result Db
  mark_paid now input db = do
    recorded ← record_capture now input db
    let next_status = status_after input
    bookings ←
        prisma.update Booking (has_id input.booking_id) (paid_booking now input) recorded.bookings
    let paid = record recorded {
      allocations =
          prisma.update_many BedAllocation (claims input.booking_id)
            (λ a. record a { kind = booking_claim; expires_at = none }) recorded.allocations;
      bookings = bookings;
    }
    done ← if input.auto_confirm then on_confirmed now input.booking_id input.pass paid else ok paid
    ok (record done {
      booking_history =
          prisma.create BookingStatusHistory
            (moved_to input.booking_id (some pending_payment) next_status none (
              if input.auto_confirm
              then "Payment received; property confirms automatically"
              else "Payment received"))
            done.booking_history;
    })

  unfoldable pub release_booking :
      Date → ℕ → BookingStatus → BookingStatus → String → Option ℕ → Db → Result Db
  release_booking now booking_id from to reason actor db = do
    require (fits max_release_reason reason) value_too_long
    let allocations =
        prisma.update_many BedAllocation (claims booking_id) (let_go now reason) db.allocations
    bookings ←
        prisma.update Booking (has_id booking_id) (λ b. released_booking now to reason b)
          db.bookings
    ok (record db {
      allocations = allocations;
      bookings = bookings;
      booking_history =
          prisma.create BookingStatusHistory (moved_to booking_id (some from) to actor reason)
            db.booking_history;
    })

  unfoldable pub approve : Date → ℕ → ℕ → NewPass → Db → Result Db
  approve now booking_id actor_id pass db = do
    bookings ← prisma.update Booking (has_id booking_id) (approved now) db.bookings
    on_confirmed now booking_id pass (record db {
      bookings = bookings;
      booking_history =
          prisma.create BookingStatusHistory
            (moved_to booking_id (some pending_approval) confirmed (some actor_id)
              "Owner accepted the booking")
            db.booking_history;
    })

  -- The unique index on the event id refuses a second row, and the error is caught.
  unfoldable pub record_event_once : ℕ → Option ℕ → Db → Bool × Db
  record_event_once event_id booking_id db =
      if any (λ e. e.gateway_event_id == event_id) db.payment_events then (false, db) else (
        true,
        record db {
          payment_events =
              prisma.create PaymentEvent (received_event event_id booking_id) db.payment_events;
        },
      )

  unfoldable pub mark_event_processed : Date → ℕ → String → Db → Db
  mark_event_processed now event_id result db = record db {
    payment_events =
        prisma.update_many PaymentEvent (λ e. e.gateway_event_id == event_id)
          (λ e. record e { processed_at = some now; processing_result = some result })
          db.payment_events;
  }

  unfoldable pub find_lapsed : Date → Db → List Booking
  find_lapsed now db = prisma.find_up_to Booking 200 (has_lapsed now) db.bookings
