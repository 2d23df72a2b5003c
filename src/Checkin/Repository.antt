-- ===== src/Checkin/Repository.antt =====
-- checkin.repository.ts. A pass is read together with its booking and that booking's tenancy. The
-- reference of a settlement and the cuts of texts to 300 and 400 characters are left out.
use Prim.Native.String.{String}
use rookopg.Prelude.{
  ℕ, ◌+◌, ◌*◌, Bool, true, false, not, ◌&&◌, Option, none, some, List, ◌==◌, ltb, any,
  if◌then◌else◌, is_some, is_none,
}
use rookopg.Prelude.Int.{ℤ}
use rookopg.Calendar.{Date}
use rookopg.Errors.{Result, ok, ◌>>=◌}
use rookopg.Database.{
  BookingStatus, confirmed, checked_in, SettlementStatus, money_held, settlement_failed,
  CheckinKind, check_in, check_out, CheckinMethod, qr, manual, Booking, BookingStatusHistory,
  Tenancy, CheckinToken, CheckinEvent, Payment, Property, Db, is_id,
}
use rookopg.Database.Client.{Prisma}
use rookopg.Booking.Repository.{has_id, moved_to}

pub record PassWithBooking : Type 0 where
  pub pass : CheckinToken
  pub booking : Booking
  pub tenancy_id : Option ℕ

pub record ArrivalInput : Type 0 where
  pub pass_id : ℕ
  pub booking_id : ℕ
  pub property_id : ℕ
  pub tenancy_id : Option ℕ
  pub actor_id : ℕ
  pub method : CheckinMethod

pub record SettlementInput : Type 0 where
  pub booking_id : ℕ
  pub status : SettlementStatus
  pub released_paise : Option ℤ
  pub refunded_paise : Option ℕ
  pub error : Option String

-- The rows that `recordArrival` may claim, and what it sets.
abbrev pub unused : ℕ → CheckinToken → Bool
unused pass_id p = (p.id == pass_id) && is_none p.used_at && is_none p.revoked_at

abbrev pub used_by : Date → ℕ → CheckinToken → CheckinToken
used_by now actor_id p = record p { used_at = some now; used_by_id = some actor_id }

abbrev pub arrived : Booking → Booking
arrived b = record b { status = checked_in }

abbrev pub arrival_event : ArrivalInput → CheckinEvent
arrival_event input = record {
  booking_id = some input.booking_id;
  tenancy_id = input.tenancy_id;
  property_id = input.property_id;
  kind = check_in;
  method = input.method;
  actor_id = input.actor_id;
}

abbrev pub arrival_reason : CheckinMethod → String
arrival_reason qr = "Move-in pass scanned"
arrival_reason manual = "Move-in code entered by staff"

abbrev pub is_failed : SettlementStatus → Bool
is_failed settlement_failed = true
is_failed _ = false

-- The columns that `recordSettlement` sets; an amount that is not given stays.
abbrev pub settled_booking : Date → SettlementInput → Booking → Booking
settled_booking now input b = record b {
  settlement_status = input.status;
  settled_at = if is_failed input.status then none else some now;
  released_paise = if is_some input.released_paise then input.released_paise else b.released_paise;
  refunded_paise = if is_some input.refunded_paise then input.refunded_paise else b.refunded_paise;
  settlement_error = input.error;
}

abbrev pub is_open_settlement : SettlementStatus → Bool
is_open_settlement money_held = true
is_open_settlement settlement_failed = true
is_open_settlement _ = false

abbrev pub is_kept : BookingStatus → Bool
is_kept confirmed = true
is_kept checked_in = true
is_kept _ = false

abbrev pub is_unsettled : Date → Booking → Bool
is_unsettled cutoff b =
    ltb b.move_in_date cutoff
    && is_open_settlement b.settlement_status
    && is_kept b.status
    && is_some b.gateway_order_id

abbrev pub is_check_in : CheckinKind → Bool
is_check_in check_in = true
is_check_in check_out = false

abbrev pub same_property : ℕ → Property → Bool
same_property property_id p = p.id == property_id

module _ (prisma : Prisma) where
  abbrev tenancy_id_of : Option Tenancy → Option ℕ
  tenancy_id_of none = none
  tenancy_id_of (some t) = some t.id

  -- The join; a pass without its booking is ruled out by the foreign key.
  abbrev pub with_booking : Db → Option CheckinToken → Option PassWithBooking
  with_booking db none = none
  with_booking db (some p) = elim (prisma.find_first Booking (has_id p.booking_id) db.bookings) [
    | none ↦ none
    | some b ↦ some record {
      pass = p;
      booking = b;
      tenancy_id =
          tenancy_id_of (prisma.find_first Tenancy (λ t. is_id b.id t.booking_id) db.tenancies);
    }
  ]

  unfoldable pub find_by_token : ℕ → Db → Option PassWithBooking
  find_by_token token db =
      with_booking db (prisma.find_first CheckinToken (λ p. p.token == token) db.passes)

  unfoldable pub find_by_short_code : ℕ → ℕ → Db → Option PassWithBooking
  find_by_short_code property_id short_code db = with_booking db (
      prisma.find_first CheckinToken
        (λ p.
          (p.short_code == short_code)
          && is_none p.revoked_at
          && any (λ b. has_id p.booking_id b && (b.property_id == property_id)) db.bookings)
        db.passes)

  abbrev attempts_of : Option CheckinToken → ℕ
  attempts_of none = 0
  attempts_of (some p) = p.attempts

  unfoldable pub count_attempt : ℕ → Db → Result (ℕ × Db)
  count_attempt pass_id db = do
    passes ←
        prisma.update CheckinToken (λ p. p.id == pass_id)
          (λ p. record p { attempts = p.attempts + 1 }) db.passes
    ok (
      attempts_of (prisma.find_first CheckinToken (λ p. p.id == pass_id) passes),
      record db { passes = passes },
    )

  abbrev later_than : Date → Option Date → Option Date
  later_than now none = none
  later_than now (some until) = if ltb now until then some until else none

  unfoldable pub code_locked_until : Date → ℕ → Db → Option Date
  code_locked_until now property_id db =
      elim (prisma.find_first Property (same_property property_id) db.properties) [
        | none ↦ none
        | some p ↦ later_than now p.checkin_code_locked_until
      ]

  abbrev failures_of : Option Property → ℕ
  failures_of none = 0
  failures_of (some p) = p.checkin_code_failures

  -- The failures after this one, and until when typed codes are now refused, if they are.
  unfoldable pub record_code_failure : Date → ℕ → ℕ → ℕ → Db → Result ((ℕ × Option Date) × Db)
  record_code_failure now property_id threshold lockout_minutes db = do
    counted ←
        prisma.update Property (same_property property_id)
          (λ p. record p { checkin_code_failures = p.checkin_code_failures + 1 }) db.properties
    let failures = failures_of (prisma.find_first Property (same_property property_id) counted)
    let locked_until = now + lockout_minutes * 60000
    locked ←
        if ltb failures threshold
        then ok counted
        else prisma.update Property (same_property property_id)
            (λ p. record p {
              checkin_code_locked_until = some locked_until;
              checkin_code_failures = 0;
            })
            counted
    ok (
      (failures, if ltb failures threshold then none else some locked_until),
      record db { properties = locked },
    )

  unfoldable pub clear_code_failures : ℕ → Db → Db
  clear_code_failures property_id db = record db {
    properties =
        prisma.update_many Property
          (λ p. same_property property_id p && ltb 0 p.checkin_code_failures)
          (λ p. record p { checkin_code_failures = 0; checkin_code_locked_until = none })
          db.properties;
  }

  -- `updateMany` counts 0 rows where none matches.
  unfoldable pub record_arrival : Date → ArrivalInput → Db → Result (Bool × Db)
  record_arrival now input db =
      if not (any (unused input.pass_id) db.passes) then ok (false, db) else (do
        let passes =
            prisma.update_many CheckinToken (unused input.pass_id) (used_by now input.actor_id)
              db.passes
        bookings ← prisma.update Booking (has_id input.booking_id) arrived db.bookings
        ok (
          true,
          record db {
            passes = passes;
            bookings = bookings;
            booking_history =
                prisma.create BookingStatusHistory
                  (moved_to input.booking_id (some confirmed) checked_in (some input.actor_id)
                    (arrival_reason input.method))
                  db.booking_history;
            checkin_events = prisma.create CheckinEvent (arrival_event input) db.checkin_events;
          },
        ))

  unfoldable pub record_settlement : Date → SettlementInput → Db → Result Db
  record_settlement now input db = do
    bookings ←
        prisma.update Booking (has_id input.booking_id) (settled_booking now input) db.bookings
    ok (record db { bookings = bookings })

  abbrev payment_id_of : Option Payment → Option ℕ
  payment_id_of none = none
  payment_id_of (some p) = p.gateway_payment_id

  abbrev order_id_of : Option Booking → Option ℕ
  order_id_of none = none
  order_id_of (some b) = b.gateway_order_id

  unfoldable pub gateway_payment_id_for : ℕ → Db → Option ℕ
  gateway_payment_id_for booking_id db =
      elim (order_id_of (prisma.find_first Booking (has_id booking_id) db.bookings)) [
        | none ↦ none
        | some order_id ↦
            payment_id_of
              (prisma.find_first Payment (λ p. is_id order_id p.gateway_order_id) db.payments)
      ]

  unfoldable pub find_unsettled_past_grace : Date → Db → List Booking
  find_unsettled_past_grace cutoff db =
      prisma.find_up_to Booking 200 (is_unsettled cutoff) db.bookings

  unfoldable pub has_checked_in : ℕ → Db → Bool
  has_checked_in booking_id db = is_some (
      prisma.find_first CheckinEvent (λ e. is_id booking_id e.booking_id && is_check_in e.kind)
        db.checkin_events)
