-- ===== src/Tests/Checkout.antt =====
-- The checkout theorems at one listed room with two beds.
use rookopg.Prelude.{ℕ, ◌≡◌, ◌≢◌, refl, ◌+◌, true, false, none, some, [], ◌∷◌, All}
use rookopg.Errors.{Result, ok, throw, DomainError, bed_already_taken, gateway_error}
use rookopg.BedLabels.{double}
use rookopg.Iam.{AuthenticatedActor}
use rookopg.Database.{
  Db, Property, published, Room, per_bed, anyone, room_active, Bed, bed_active, is_id, overlaps,
}
use rookopg.Payments.{PaymentGateway}
use rookopg.Payments.Razorpay.{razorpay_gateway}
use rookopg.Booking.Repository.{hold_bed, attach_order, find_by_id, find_by_idempotency_key}
use rookopg.Booking.Checkout.{
  CheckoutSettings, CreateBookingDto, Quote, Checkout, checkout_of, create_booking, new_booking,
  book_each, try_bed, with_order, quote, candidate_beds, beds_of, find_by_slug, fill_name,
  hold_input,
}
use rookopg.Calendar.{date_utc, get_utc_full_year, get_utc_month, get_utc_date}
use rookopg.Pricing.{price_booking, commission_applies}
use rookopg.RentCycle.{start_of_day}
use rookopg.Booking.Checkout.Candidates.{IsFree, candidate_beds_lem}
use rookopg.Booking.Checkout.Steps.{IsGiven}
use rookopg.Booking.Checkout.Retry.{create_booking_lem, create_booking_twice}
use rookopg.Booking.Checkout.Unlinked.{create_booking_unlinked}
use rookopg.Tests.ListClient.{list_prisma}
use rookopg.Tests.Samples.{empty_db, sample_booking}
use rookopg.Tests.Razorpay.{list_api, no_refunds}

-- A provider that numbers its orders.
abbrev counting_gateway : PaymentGateway
counting_gateway = record {
  State = ℕ;
  create_order =
      λ input n. (ok (record { order_id = n; amount_paise = input.amount_paise }), n + 1);
  release_owner_share = λ input n. (throw (gateway_error "unused"), n);
  refund_to_tenant = λ input n. (throw (gateway_error "unused"), n);
}

abbrev guest : AuthenticatedActor
guest = record { user_id = 11; memberships = []; platform_roles = [] }

abbrev listed_property : Property
listed_property = record {
  id = 8;
  org_id = 7;
  auto_confirm_bookings = true;
  checkin_code_failures = 0;
  checkin_code_locked_until = none;
  deleted_at = none;
}

abbrev listed_room : Room
listed_room = record {
  id = 9;
  property_id = 8;
  org_id = 7;
  code = 49 ∷ [];
  floor = some 1;
  sharing_type = double;
  sharing_capacity = 2;
  sale_mode = per_bed;
  gender = anyone;
  has_ac = false;
  has_attached_bath = false;
  has_balcony = false;
  base_rent_paise = 700000;
  deposit_paise = 100000;
  status = room_active;
  deleted_at = none;
}

abbrev listed_bed : Bed
listed_bed = record {
  id = 10;
  room_id = 9;
  property_id = 8;
  code = 65 ∷ [];
  status = bed_active;
  rent_override_paise = none;
  deleted_at = none;
}

abbrev pub listed_db : Db
listed_db = record empty_db {
  next_id = 20;
  properties = listed_property ∷ [];
  listings = record { property_id = 8; status = published; slug = some 77 } ∷ [];
  organisations =
      record {
        id = 7;
        name = "Sunrise";
        legal_name = none;
        free_period_months = 3;
        free_period_starts_at = none;
        created_at = 0;
        deleted_at = none;
      }
      ∷ [];
  rooms = listed_room ∷ [];
  beds = listed_bed ∷ [];
}

abbrev checkout_settings : CheckoutSettings
checkout_settings = record { hold_minutes = 15; commission_bps = 400; convenience_fee_paise = 500 }

abbrev stay_request : CreateBookingDto
stay_request = record {
  slug = 77;
  sharing_type = double;
  move_in_date = some 86400000;
  full_name = none;
  idempotency_key = some 5;
}

abbrev sample_quote : Quote
sample_quote = record {
  property = listed_property;
  move_in_date = 86400000;
  candidates = [];
  chargeable = false;
}

candidate_beds_lem_example :
    All
      (λ c.
        IsFree 86400000 listed_db c
        × (hold_bed list_prisma 0
              (hold_input list_prisma checkout_settings counting_gateway 0 11 5 sample_quote c)
              listed_db
            ≢ throw bed_already_taken))
      (candidate_beds list_prisma 8 double 86400000 listed_db)
candidate_beds_lem_example =
    candidate_beds_lem list_prisma checkout_settings counting_gateway 0 11 5 sample_quote double
      listed_db

abbrev first_run : (Result Checkout × Db) × ℕ
first_run =
    create_booking list_prisma checkout_settings counting_gateway 0 6 guest stay_request 30
      listed_db

abbrev made_by : Result Checkout → Checkout
made_by (ok c) = c
made_by (throw e) = checkout_of sample_booking

was_made : first_run.0 ≡ (ok (made_by first_run.0.0), first_run.0.1)
unfolding create_booking new_booking book_each try_bed with_order quote candidate_beds beds_of
    find_by_slug fill_name find_by_idempotency_key find_by_id attach_order hold_bed overlaps
    price_booking commission_applies start_of_day date_utc get_utc_full_year get_utc_month
    get_utc_date
was_made = refl

no_bookings : All (IsGiven listed_db.next_id) listed_db.bookings
no_bookings = tt

create_booking_lem_example :
    ((made_by first_run.0.0).booking.tenant_user_id ≡ 11)
    × (is_id 5 (made_by first_run.0.0).booking.idempotency_key ≡ true)
    × ((made_by first_run.0.0).booking.gateway_order_id ≡ (made_by first_run.0.0).order_id)
create_booking_lem_example =
    create_booking_lem list_prisma checkout_settings counting_gateway 0 6 guest stay_request 30
      listed_db no_bookings was_made

create_booking_twice_example :
    (again : Checkout) × (create_booking list_prisma checkout_settings counting_gateway 9 7 guest
        stay_request 31 first_run.0.1
      ≡ ((ok again, fill_name list_prisma 11 none first_run.0.1), 31))
    × (again.booking.tenant_user_id ≡ 11)
create_booking_twice_example =
    create_booking_twice list_prisma checkout_settings counting_gateway 0 9 6 7 guest stay_request
      stay_request 30 31 listed_db no_bookings was_made refl

new_key : find_by_idempotency_key list_prisma 5 (fill_name list_prisma 11 none listed_db) ≡ none
unfolding find_by_idempotency_key fill_name
new_key = refl

create_booking_unlinked_example :
    ((e : DomainError) × ((create_booking list_prisma checkout_settings
          (razorpay_gateway list_api)
          0
          6
          guest
          stay_request
          no_refunds
          listed_db).0.0
        ≡ throw e))
    × ((create_booking list_prisma checkout_settings
          (razorpay_gateway list_api)
          0
          6
          guest
          stay_request
          no_refunds
          listed_db).1
        ≡ no_refunds)
create_booking_unlinked_example =
    create_booking_unlinked list_prisma checkout_settings list_api 0 6 guest stay_request no_refunds
      listed_db new_key
