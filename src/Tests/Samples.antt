-- ===== src/Tests/Samples.antt =====
-- A bed held, paid for and let: sample rows for the theorems at concrete inputs.
use rookopg.Prelude.{true, some, [], ◌∷◌}
use rookopg.Errors.{Result, ok, throw}
use rookopg.Database.{BedAllocation, Booking, Db}
use rookopg.Booking.Service.{Settings, Drawn, VerifiedEvent, payment_captured}
use rookopg.Booking.Repository.{HoldInput, NewPass, PaidInput, held_booking, hold_claim}

abbrev pub empty_db : Db
empty_db = record {
  next_id = 1;
  allocations = [];
  bookings = [];
  booking_history = [];
  tenancies = [];
  tenancy_history = [];
  passes = [];
  checkin_events = [];
  payments = [];
  payment_events = [];
  properties = [];
  invoices = [];
  payment_allocations = [];
  users = [];
  organisations = [];
  rooms = [];
  beds = [];
  otp_challenges = [];
  auth_sessions = [];
  listings = [];
  org_memberships = [];
  membership_properties = [];
}

abbrev pub sample_hold : HoldInput
sample_hold = record {
  org_id = 7;
  property_id = 8;
  room_id = 9;
  bed_id = 10;
  tenant_user_id = 11;
  move_in_date = 86400000;
  hold_expires_at = 900000;
  rent_paise = 700000;
  deposit_paise = 100000;
  payable_now_paise = 800000;
  convenience_fee_paise = 500;
  idempotency_key = 12;
}

abbrev pub sample_booking : Booking
sample_booking = record (held_booking sample_hold 2) { gateway_order_id = some 30 }

abbrev pub sample_claim : BedAllocation
sample_claim = record (hold_claim sample_hold 1) { booking_id = some 2 }

abbrev pub held_db : Db
held_db = record empty_db {
  next_id = 3;
  allocations = sample_claim ∷ [];
  bookings = sample_booking ∷ [];
}

abbrev pub sample_pass : NewPass
sample_pass = record { token = 40; short_code = 41; valid_to = 400000000 }

abbrev pub sample_paid : PaidInput
sample_paid = record {
  booking_id = 2;
  property_id = 8;
  tenant_user_id = 11;
  amount_paise = 800500;
  gateway_payment_id = 31;
  gateway_order_id = 30;
  approval_expires_at = 172800000;
  auto_confirm = true;
  pass = sample_pass;
}

-- What a transaction left, or the empty database if it threw.
abbrev pub db_of : Result Db → Db
db_of (ok db) = db
db_of (throw e) = empty_db

abbrev pub settings : Settings
settings = record { approval_hours = 24; checkin_grace_days = 3 }

abbrev pub drawn : Drawn
drawn = record { now = 1000; token = 50; short_code = 51 }

abbrev pub event : VerifiedEvent
event = record {
  event_id = 60;
  type = payment_captured;
  order_id = some 30;
  payment_id = some 31;
  amount_paise = some 800500;
}
