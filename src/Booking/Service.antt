-- ===== src/Booking/Service.antt =====
-- booking.service.ts: the operations on a booking. `Settings` holds the configuration, and `Drawn`
-- what an operation draws from outside: the time, and the random token and code of a pass.
use Prim.Native.String.{String}
use rookopg.Prelude.{
  ℕ, ◌+◌, ◌*◌, Bool, true, false, not, Option, none, some, List, [], ◌∷◌, ◌==◌, if◌then◌else◌,
  or_else,
}
use rookopg.Calendar.{Date, get_utc_full_year, get_utc_month, get_utc_date, date_utc}
use rookopg.Errors.{ok, not_found, conflict, hide_forbidden}
use rookopg.Iam.{AuthenticatedActor, OrgRole, owner, manager, assert_property_access}
use rookopg.Database.{
  BookingStatus, pending_payment, payment_failed, pending_approval, confirmed, cancelled, rejected,
  expired, Booking, Property, Db, draft, held, checked_in, no_show,
}
use rookopg.Database.Client.{Prisma}
use rookopg.Database.Session.{
  Session, ◌>>=◌, ◌>>◌, pure, lift, reads, transact, writes, require_s, require_some,
}
use rookopg.Booking.Repository.{
  NewPass, PaidInput, is_pending_payment, is_pending_approval, find_by_id, find_by_order_id,
  mark_paid, release_booking, approve, record_event_once, mark_event_processed, find_lapsed,
}

pub record Settings : Type 0 where
  pub approval_hours : ℕ
  pub checkin_grace_days : ℕ

pub record Drawn : Type 0 where
  pub now : Date
  pub token : ℕ
  pub short_code : ℕ

abbrev pub owner_roles : List OrgRole
owner_roles = owner ∷ manager ∷ []

-- The last millisecond of the last day of grace.
unfoldable pub new_pass : Settings → Drawn → Date → NewPass
new_pass settings drawn move_in_date =
    let last_day =
      date_utc (get_utc_full_year move_in_date) (get_utc_month move_in_date)
        (get_utc_date move_in_date + settings.checkin_grace_days) in
    record { token = drawn.token; short_code = drawn.short_code; valid_to = last_day + 86399999 }

pub data EventType : Type 0 where
  payment_captured payment_failed_event other : EventType

pub record VerifiedEvent : Type 0 where
  pub event_id : ℕ
  pub type : EventType
  pub order_id : Option ℕ
  pub payment_id : Option ℕ
  pub amount_paise : Option ℕ

pub data WebhookOutcome : Type 0 where
  duplicate unmatched failed ignored already_processed amount_mismatch paid : WebhookOutcome

-- `event.amountPaise !== undefined && event.amountPaise !== expected`
abbrev pub differs : Option ℕ → ℕ → Bool
differs none expected = false
differs (some amount) expected = not (amount == expected)

-- `already ${booking.status}`
abbrev pub already_result : BookingStatus → String
already_result draft = "already DRAFT"
already_result held = "already HELD"
already_result pending_payment = "already PENDING_PAYMENT"
already_result payment_failed = "already PAYMENT_FAILED"
already_result pending_approval = "already PENDING_APPROVAL"
already_result confirmed = "already CONFIRMED"
already_result checked_in = "already CHECKED_IN"
already_result cancelled = "already CANCELLED"
already_result rejected = "already REJECTED"
already_result expired = "already EXPIRED"
already_result no_show = "already NO_SHOW"

abbrev pub is_cancellable : BookingStatus → Bool
is_cancellable pending_payment = true
is_cancellable pending_approval = true
is_cancellable confirmed = true
is_cancellable _ = false

module _ (prisma : Prisma) (settings : Settings) where
  -- The property that a booking's row is joined with; the foreign key says that it is there.
  unfoldable pub auto_confirms : Booking → Db → Bool
  auto_confirms b db =
      elim (prisma.find_first Property (λ p. p.id == b.property_id) db.properties) [
        | none ↦ false
        | some p ↦ p.auto_confirm_bookings
      ]

  unfoldable pub paid_input : Drawn → VerifiedEvent → Booking → Bool → PaidInput
  paid_input drawn event b auto_confirm = record {
    booking_id = b.id;
    property_id = b.property_id;
    tenant_user_id = b.tenant_user_id;
    amount_paise = b.payable_now_paise + b.convenience_fee_paise;
    gateway_payment_id = or_else event.payment_id event.event_id;
    gateway_order_id = or_else event.order_id 0;
    approval_expires_at = drawn.now + settings.approval_hours * 3600000;
    auto_confirm = auto_confirm;
    pass = new_pass settings drawn b.move_in_date;
  }

  -- A captured payment, for the booking that was read before the event was recorded.
  unfoldable pub apply_captured : Drawn → VerifiedEvent → Booking → Bool → Session WebhookOutcome
  apply_captured drawn event b auto_confirm =
      if not (is_pending_payment b.status)
      then (do
        writes (mark_event_processed prisma drawn.now event.event_id (already_result b.status))
        pure already_processed)
      else if differs event.amount_paise (b.payable_now_paise + b.convenience_fee_paise)
      then (do
        writes (mark_event_processed prisma drawn.now event.event_id "amount mismatch")
        pure amount_mismatch)
      else (do
        transact (mark_paid prisma drawn.now (paid_input drawn event b auto_confirm))
        writes (
            mark_event_processed prisma drawn.now event.event_id
              (if auto_confirm then "booking confirmed" else "booking awaiting owner approval"))
        pure paid)

  unfoldable pub apply_failed : Drawn → VerifiedEvent → Booking → Session WebhookOutcome
  apply_failed drawn event b = do
    if is_pending_payment b.status
        then transact
            (release_booking prisma drawn.now b.id b.status payment_failed "Payment failed" none)
        else pure tt
    writes (mark_event_processed prisma drawn.now event.event_id "payment failed")
    pure failed

  -- `applyWebhook` after the event has been recorded for the first time.
  unfoldable pub apply_fresh :
      Drawn → VerifiedEvent → Option Booking → Bool → EventType → Session WebhookOutcome
  apply_fresh drawn event none auto_confirm type = do
    writes (mark_event_processed prisma drawn.now event.event_id "no matching booking")
    pure unmatched
  apply_fresh drawn event (some b) auto_confirm payment_failed_event = apply_failed drawn event b
  apply_fresh drawn event (some b) auto_confirm other = do
    writes (mark_event_processed prisma drawn.now event.event_id "ignored")
    pure ignored
  apply_fresh drawn event (some b) auto_confirm payment_captured =
      apply_captured drawn event b auto_confirm

  abbrev pub booking_of_event : VerifiedEvent → Db → Option Booking
  booking_of_event event db = elim event.order_id [
    | none ↦ none
    | some order_id ↦ find_by_order_id prisma order_id db
  ]

  abbrev pub auto_confirms? : Option Booking → Db → Bool
  auto_confirms? none db = false
  auto_confirms? (some b) db = auto_confirms b db

  abbrev pub id_of : Option Booking → Option ℕ
  id_of none = none
  id_of (some b) = some b.id

  unfoldable pub apply_webhook : Drawn → VerifiedEvent → Session WebhookOutcome
  apply_webhook drawn event db =
      let booking = booking_of_event event db in
      let (fresh, recorded) = record_event_once prisma event.event_id (id_of booking) db in
      if not fresh
      then (ok duplicate, recorded)
      else apply_fresh drawn event booking (auto_confirms? booking db) event.type recorded

  -- `!booking || booking.tenantUserId !== actor.userId`
  abbrev pub own : AuthenticatedActor → Option Booking → Option Booking
  own actor none = none
  own actor (some b) = if b.tenant_user_id == actor.user_id then some b else none

  unfoldable pub get_mine : AuthenticatedActor → ℕ → Session Booking
  get_mine actor booking_id db =
      require_some (own actor (find_by_id prisma booking_id db)) (not_found "Booking") db

  unfoldable pub cancel_mine : Date → AuthenticatedActor → ℕ → Session Booking
  cancel_mine now actor booking_id = do
    booking ← get_mine actor booking_id
    require_s (is_cancellable booking.status) (conflict "This booking can no longer be cancelled.")
    transact (
        release_booking prisma now booking_id booking.status cancelled "Cancelled by the tenant"
          (some actor.user_id))
    get_mine actor booking_id

  unfoldable pub load_for_owner : AuthenticatedActor → ℕ → Session Booking
  load_for_owner actor booking_id = do
    found ← reads (find_by_id prisma booking_id)
    booking ← require_some found (not_found "Booking")
    lift (
        hide_forbidden "Booking"
          (assert_property_access actor booking.org_id booking.property_id owner_roles))
    pure booking

  unfoldable pub approve_booking : Drawn → AuthenticatedActor → ℕ → Session (Unit {0})
  approve_booking drawn actor booking_id = do
    booking ← load_for_owner actor booking_id
    require_s (is_pending_approval booking.status)
        (conflict "This booking is not waiting for a decision.")
    transact (
        approve prisma drawn.now booking_id actor.user_id
          (new_pass settings drawn booking.move_in_date))

  unfoldable pub reject_booking : Date → AuthenticatedActor → ℕ → Option String → Session (Unit {0})
  reject_booking now actor booking_id reason = do
    booking ← load_for_owner actor booking_id
    require_s (is_pending_approval booking.status)
        (conflict "This booking is not waiting for a decision.")
    transact (
        release_booking prisma now booking_id booking.status rejected
          (or_else reason "Owner could not take this booking") (some actor.user_id))

  -- The loop of `expireLapsed`, with its two counters.
  unfoldable pub expire_each : Date → List Booking → ℕ → ℕ → Session (ℕ × ℕ)
  expire_each now [] holds approvals = pure (holds, approvals)
  expire_each now (b ∷ rest) holds approvals = do
    let is_hold = is_pending_payment b.status
    transact (
        release_booking prisma now b.id b.status (if is_hold then expired else rejected)
          (if is_hold then "Checkout not completed in time" else "Owner did not respond in time")
          none)
    expire_each now rest (if is_hold then holds + 1 else holds)
        (if is_hold then approvals else approvals + 1)

  unfoldable pub expire_lapsed : Date → Session (ℕ × ℕ)
  expire_lapsed now = do lapsed ← reads (find_lapsed prisma now); expire_each now lapsed 0 0
