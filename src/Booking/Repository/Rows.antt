-- ===== src/Booking/Repository/Rows.antt =====
-- booking.repository.ts: what its methods take, look for and write, row by row.
use Prim.Native.String.{String}
use rookopg.Prelude.{
  ℕ, Bool, true, false, ◌&&◌, ◌||◌, Option, none, some, ◌==◌, if◌then◌else◌, zero, suc,
}
use rookopg.Calendar.{Date, get_utc_date}
use rookopg.Database.{
  captured, razorpay_upi, hold, active, released, online, BookingStatus, pending_payment,
  pending_approval, confirmed, cancelled, rejected, tenancy_active, money_held, BedAllocation,
  Booking, BookingStatusHistory, Tenancy, CheckinToken, Payment, PaymentEvent, is_active, is_hold,
  is_id, is_past,
}

pub record HoldInput : Type 0 where
  pub org_id : ℕ
  pub property_id : ℕ
  pub room_id : ℕ
  pub bed_id : ℕ
  pub tenant_user_id : ℕ
  pub move_in_date : Date
  pub hold_expires_at : Date
  pub rent_paise : ℕ
  pub deposit_paise : ℕ
  pub payable_now_paise : ℕ
  pub convenience_fee_paise : ℕ
  pub idempotency_key : ℕ

-- The pass that `newPass` makes: its random token and code, and when it ends.
pub record NewPass : Type 0 where
  pub token : ℕ
  pub short_code : ℕ
  pub valid_to : Date

pub record PaidInput : Type 0 where
  pub booking_id : ℕ
  pub property_id : ℕ
  pub tenant_user_id : ℕ
  pub amount_paise : ℕ
  pub gateway_payment_id : ℕ
  pub gateway_order_id : ℕ
  pub approval_expires_at : Date
  pub auto_confirm : Bool
  pub pass : NewPass

abbrev pub has_id : ℕ → Booking → Bool
has_id k b = b.id == k

-- The rows that claim a bed for a booking.
abbrev pub claims : ℕ → BedAllocation → Bool
claims booking_id a = is_id booking_id a.booking_id && is_active a.status

abbrev pub lapsed_hold : Date → ℕ → BedAllocation → Bool
lapsed_hold now bed_id a =
    (a.bed_id == bed_id) && is_hold a.kind && is_active a.status && is_past now a.expires_at

abbrev pub let_go : Date → String → BedAllocation → BedAllocation
let_go now reason a = record a {
  status = released;
  released_at = some now;
  release_reason = some reason;
}

-- The new claim of `holdBed`, before the booking exists.
abbrev pub hold_claim : HoldInput → ℕ → BedAllocation
hold_claim input id = record {
  id = id;
  bed_id = input.bed_id;
  property_id = input.property_id;
  start_date = input.move_in_date;
  end_date = none;
  kind = hold;
  status = active;
  booking_id = none;
  tenancy_id = none;
  expires_at = some input.hold_expires_at;
  released_at = none;
  release_reason = none;
}

abbrev pub held_booking : HoldInput → ℕ → Booking
held_booking input id = record {
  id = id;
  org_id = input.org_id;
  property_id = input.property_id;
  room_id = input.room_id;
  bed_id = input.bed_id;
  tenant_user_id = input.tenant_user_id;
  source = online;
  status = pending_payment;
  move_in_date = input.move_in_date;
  agreed_rent_paise = input.rent_paise;
  agreed_deposit_paise = input.deposit_paise;
  payable_now_paise = input.payable_now_paise;
  convenience_fee_paise = input.convenience_fee_paise;
  notice_days = 30;
  idempotency_key = some input.idempotency_key;
  gateway_order_id = none;
  hold_expires_at = some input.hold_expires_at;
  approval_expires_at = none;
  owner_responded_at = none;
  paid_at = none;
  cancelled_at = none;
  cancellation_reason = none;
  settlement_status = money_held;
  settled_at = none;
  released_paise = none;
  refunded_paise = none;
  settlement_error = none;
}

abbrev pub moved_to :
    ℕ → Option BookingStatus → BookingStatus → Option ℕ → String → BookingStatusHistory
moved_to booking_id from to actor reason = record {
  booking_id = booking_id;
  from_status = from;
  to_status = to;
  actor_id = actor;
  reason = reason;
}

abbrev pub is_refusal : BookingStatus → Bool
is_refusal cancelled = true
is_refusal rejected = true
is_refusal _ = false

-- Whether a text has at most so many characters.
abbrev pub fits : ℕ → String → Bool
fits n String.[] = true
fits zero (String.◌∷◌ c s) = false
fits (suc n) (String.◌∷◌ c s) = fits n s

-- `releaseReason` is a VarChar(200); the reason's other columns are longer.
abbrev pub max_release_reason : ℕ
max_release_reason = 200

-- The columns that `releaseBooking` sets.
abbrev pub released_booking : Date → BookingStatus → String → Booking → Booking
released_booking now to reason b =
    let freed = record b { status = to; hold_expires_at = none } in
    if is_refusal to
    then record freed { cancelled_at = some now; cancellation_reason = some reason }
    else freed

-- The columns that `markPaid` sets.
abbrev pub status_after : PaidInput → BookingStatus
status_after input = if input.auto_confirm then confirmed else pending_approval

abbrev pub paid_booking : Date → PaidInput → Booking → Booking
paid_booking now input b = record b {
  status = status_after input;
  paid_at = some now;
  hold_expires_at = none;
  approval_expires_at = if input.auto_confirm then none else some input.approval_expires_at;
}

abbrev pub captured_payment : Date → ℕ → PaidInput → Payment
captured_payment now id input = record {
  id = id;
  property_id = input.property_id;
  tenancy_id = none;
  status = captured;
  method = razorpay_upi;
  tenant_user_id = input.tenant_user_id;
  amount_paise = input.amount_paise;
  gateway_order_id = some input.gateway_order_id;
  gateway_payment_id = some input.gateway_payment_id;
  received_at = now;
}

abbrev pub received_event : ℕ → Option ℕ → PaymentEvent
received_event event_id booking_id = record {
  gateway_event_id = event_id;
  booking_id = booking_id;
  processed_at = none;
  processing_result = none;
}

-- The columns that `approve` sets.
abbrev pub approved : Date → Booking → Booking
approved now b = record b {
  status = confirmed;
  owner_responded_at = some now;
  approval_expires_at = none;
}

-- The rows that `onConfirmed` makes.
abbrev pub opened_tenancy : ℕ → Booking → Tenancy
opened_tenancy tenancy_id b = record {
  id = tenancy_id;
  org_id = b.org_id;
  property_id = b.property_id;
  bed_id = b.bed_id;
  tenant_user_id = b.tenant_user_id;
  booking_id = some b.id;
  start_date = b.move_in_date;
  end_date = none;
  agreed_rent_paise = b.agreed_rent_paise;
  deposit_paise = b.agreed_deposit_paise;
  cycle_anchor_day = some (get_utc_date b.move_in_date);
  notice_days = b.notice_days;
  status = tenancy_active;
  notice_given_at = none;
  intended_vacate_date = none;
  actual_vacate_date = none;
}

abbrev pub issued_pass : Date → ℕ → ℕ → NewPass → CheckinToken
issued_pass now id booking_id pass = record {
  id = id;
  booking_id = booking_id;
  token = pass.token;
  short_code = pass.short_code;
  attempts = 0;
  valid_from = now;
  valid_to = pass.valid_to;
  used_at = none;
  used_by_id = none;
  revoked_at = none;
}

-- What `findLapsed` looks for.
abbrev pub is_pending_payment : BookingStatus → Bool
is_pending_payment pending_payment = true
is_pending_payment _ = false

abbrev pub is_pending_approval : BookingStatus → Bool
is_pending_approval pending_approval = true
is_pending_approval _ = false

abbrev pub has_lapsed : Date → Booking → Bool
has_lapsed now b =
    (is_pending_payment b.status && is_past now b.hold_expires_at)
    || (is_pending_approval b.status && is_past now b.approval_expires_at)
