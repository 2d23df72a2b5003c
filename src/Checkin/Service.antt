-- ===== src/Checkin/Service.antt =====
-- checkin.service.ts: redeeming a pass. The arrival is a session on the database; the settlement then
-- calls the payment gateway. Logging, the columns that the answer only displays and the number of
-- days in one message are left out.
use Prim.Native.String.{String}
use rookopg.Prelude.{
  ℕ, Bool, true, false, not, ◌&&◌, ◌||◌, Option, none, some, ◌==◌, ltb, if◌then◌else◌, is_some,
  is_none,
}
use rookopg.Prelude.Int.{ℤ, pos}
use rookopg.Calendar.{Date}
use rookopg.Errors.{DomainError, Result, ok, throw, not_found, conflict, hide_forbidden}
use rookopg.Iam.{AuthenticatedActor, assert_property_access}
use rookopg.Database.{
  BookingStatus, confirmed, checked_in, cancelled, SettlementStatus, money_released,
  settlement_failed, qr, manual, CheckinMethod, Property, Db,
}
use rookopg.Database.Client.{Prisma}
use rookopg.Database.Session.{
  Session, ◌>>=◌, ◌>>◌, pure, fail, lift, reads, writes, require_s, require_some, transact,
  transact_with,
}
use rookopg.Payments.{PaymentGateway, SettleInput, Outcome, release_key}
use rookopg.Booking.Service.{owner_roles}
use rookopg.Checkin.Repository.{
  PassWithBooking, SettlementInput, find_by_token, find_by_short_code, count_attempt,
  code_locked_until, record_code_failure, clear_code_failures, record_arrival, record_settlement,
  gateway_payment_id_for,
}

abbrev pub max_code_attempts : ℕ
max_code_attempts = 10

abbrev pub code_lockout_minutes : ℕ
code_lockout_minutes = 15

-- An empty token or code counts as missing.
pub record RedeemPassDto : Type 0 where
  pub token : Option ℕ
  pub short_code : Option ℕ

pub record Settlement : Type 0 where
  pub status : SettlementStatus
  pub released_paise : ℤ
  pub pending : Bool

pub record CheckinResult : Type 0 where
  pub booking_id : ℕ
  pub settlement : Settlement

abbrev pub is_confirmed : BookingStatus → Bool
is_confirmed confirmed = true
is_confirmed _ = false

abbrev pub is_checked_in : BookingStatus → Bool
is_checked_in checked_in = true
is_checked_in _ = false

abbrev pub is_cancelled : BookingStatus → Bool
is_cancelled cancelled = true
is_cancelled _ = false

unfoldable pub assert_redeemable : Date → PassWithBooking → Session (Unit {0})
assert_redeemable now p = do
  require_s (is_none p.pass.revoked_at) (conflict "This pass is no longer valid.")
  require_s (is_none p.pass.used_at) (conflict "This pass has already been used.")
  require_s (not (is_cancelled p.booking.status)) (conflict "This booking was cancelled.")
  require_s (not (is_checked_in p.booking.status)) (conflict "This tenant is already checked in.")
  require_s (is_confirmed p.booking.status) (conflict "This booking is not confirmed yet.")
  require_s (not (ltb now p.pass.valid_from)) (conflict "This pass is not active yet.")
  require_s (not (ltb p.pass.valid_to now))
      (conflict "This pass expired after the move-in date. Contact support.")

-- `!pass || pass.booking.propertyId !== propertyId`
abbrev pub at_property : ℕ → Option PassWithBooking → Option PassWithBooking
at_property property_id none = none
at_property property_id (some p) = if p.booking.property_id == property_id then some p else none

abbrev pub method_of : RedeemPassDto → CheckinMethod
method_of dto = if is_some dto.token then qr else manual

module _ (prisma : Prisma) where
  unfoldable pub assert_staff_at : AuthenticatedActor → ℕ → Session (Unit {0})
  assert_staff_at actor property_id = do
    found ← reads (λ db. prisma.find_first Property (λ p. p.id == property_id) db.properties)
    property ← require_some found (not_found "Property")
    lift (
        hide_forbidden "Property"
          (assert_property_access actor property.org_id property_id owner_roles))

  unfoldable pub find_pass : ℕ → RedeemPassDto → Db → Option PassWithBooking
  find_pass property_id dto db = elim dto.token [
    | some token ↦ find_by_token prisma token db
    | none ↦ elim dto.short_code [
      | some code ↦ find_by_short_code prisma property_id code db
      | none ↦ none
    ]
  ]

  abbrev pub assert_unlocked : Date → ℕ → RedeemPassDto → Session (Unit {0})
  assert_unlocked now property_id dto = do
    locked ← reads (code_locked_until prisma now property_id)
    require_s (not (is_some dto.short_code && is_some locked))
        (conflict "Too many wrong codes at this property. Scan the QR, or try again shortly.")

  -- A miss is counted against the property where a code was typed.
  unfoldable pub missed : Date → ℕ → RedeemPassDto → Session PassWithBooking
  missed now property_id dto = do
    if is_some dto.short_code
        then (transact_with
              (record_code_failure prisma now property_id max_code_attempts code_lockout_minutes)
            >>= λ _. pure tt)
        else pure tt
    fail (not_found "Move-in pass")

  unfoldable pub pass_or_miss :
      Date → ℕ → RedeemPassDto → Option PassWithBooking → Session PassWithBooking
  pass_or_miss now property_id dto none = missed now property_id dto
  pass_or_miss now property_id dto (some p) = pure p

  unfoldable pub counted_code : ℕ → RedeemPassDto → PassWithBooking → Session (Unit {0})
  counted_code property_id dto p = if not (is_some dto.short_code) then pure tt else (do
    writes (clear_code_failures prisma property_id)
    attempts ← transact_with (count_attempt prisma p.pass.id)
    require_s (not (ltb max_code_attempts attempts))
        (conflict "Too many attempts on this code. Scan the QR instead."))

  -- `redeem`, until the arrival is recorded.
  unfoldable pub claim_pass :
      Date → AuthenticatedActor → ℕ → RedeemPassDto → Session PassWithBooking
  claim_pass now actor property_id dto = do
    assert_staff_at actor property_id
    require_s (is_some dto.token || is_some dto.short_code)
        (conflict "Scan the QR or type the six-digit code.")
    assert_unlocked now property_id dto
    found ← reads (find_pass property_id dto)
    p ← pass_or_miss now property_id dto (at_property property_id found)
    counted_code property_id dto p
    assert_redeemable now p
    claimed ← transact_with (
        record_arrival prisma now (record {
          pass_id = p.pass.id;
          booking_id = p.booking.id;
          property_id = property_id;
          tenancy_id = p.tenancy_id;
          actor_id = actor.user_id;
          method = method_of dto;
        }))
    require_s claimed (conflict "This pass has already been used.")
    pure p

  -- `message_of` is the text of an error.
  module _ (gateway : PaymentGateway) (message_of : DomainError → String) where
    abbrev pub release_of : ℕ → ℕ → SettleInput
    release_of booking_id payment_id = record {
      payment_id = payment_id;
      idempotency_key = release_key booking_id;
    }

    abbrev pub released_settlement : ℕ → Outcome → SettlementInput
    released_settlement booking_id outcome = record {
      booking_id = booking_id;
      status = money_released;
      released_paise = some outcome.released_paise;
      refunded_paise = none;
      error = none;
    }

    abbrev pub failed_settlement : ℕ → DomainError → SettlementInput
    failed_settlement booking_id e = record {
      booking_id = booking_id;
      status = settlement_failed;
      released_paise = none;
      refunded_paise = none;
      error = some (message_of e);
    }

    -- The `catch` of `settle`.
    unfoldable pub settle_failed : Date → ℕ → DomainError → Session Settlement
    settle_failed now booking_id e = do
      transact (record_settlement prisma now (failed_settlement booking_id e))
      pure (record { status = settlement_failed; released_paise = pos 0; pending = true })

    unfoldable pub settled : Date → ℕ → Result Outcome → Session Settlement
    settled now booking_id (throw e) db = settle_failed now booking_id e db
    settled now booking_id (ok outcome) db =
        elim (record_settlement prisma now (released_settlement booking_id outcome) db) [
          | throw e ↦ settle_failed now booking_id e db
          | ok db' ↦ (
            ok (record {
              status = money_released;
              released_paise = outcome.released_paise;
              pending = false;
            }),
            db',
          )
        ]

    unfoldable pub settle_payment :
        Date → ℕ → ℕ → gateway.State → Db → (Result Settlement × Db) × gateway.State
    settle_payment now booking_id payment_id g db =
        let (released, g') = gateway.release_owner_share (release_of booking_id payment_id) g in
        (settled now booking_id released db, g')

    -- Money of offline and walk-in bookings never passed through the platform.
    unfoldable pub settle : Date → ℕ → gateway.State → Db → (Result Settlement × Db) × gateway.State
    settle now booking_id g db = elim (gateway_payment_id_for prisma booking_id db) [
      | none ↦ (
        (ok (record { status = money_released; released_paise = pos 0; pending = false }), db),
        g,
      )
      | some payment_id ↦ settle_payment now booking_id payment_id g db
    ]

    abbrev pub answered : ℕ → Result Settlement → Result CheckinResult
    answered booking_id (throw e) = throw e
    answered booking_id (ok s) = ok (record { booking_id = booking_id; settlement = s })

    abbrev redeem_claimed :
        Date
        → Result PassWithBooking
        → gateway.State
        → Db
        → (Result CheckinResult × Db) × gateway.State
    redeem_claimed now (throw e) g db = ((throw e, db), g)
    redeem_claimed now (ok p) g db =
        let ((s, db'), g') = settle now p.booking.id g db in ((answered p.booking.id s, db'), g')

    unfoldable pub redeem :
        Date
        → AuthenticatedActor
        → ℕ
        → RedeemPassDto
        → gateway.State
        → Db
        → (Result CheckinResult × Db) × gateway.State
    redeem now actor property_id dto g db =
        let (claimed, db') = claim_pass now actor property_id dto db in
        redeem_claimed now claimed g db'
