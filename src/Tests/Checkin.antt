-- ===== src/Tests/Checkin.antt =====
-- The check-in theorems at one arrival, and the refund of a booking that paid commission.
use rookopg.Prelude.{◌≡◌, refl, Bool, true, false, none, some, [], ◌∷◌, arith}
use rookopg.Prelude.Int.{pos}
use rookopg.Errors.{Result, ok, throw, gateway_error}
use rookopg.Database.{Db, Booking, CheckinToken, qr, manual, confirmed}
use rookopg.Booking.Repository.{issued_pass}
use rookopg.Rounding.{round_div}
use rookopg.Pricing.{PriceInput, price_booking}
use rookopg.Payments.Dev.{refund_to_tenant, transfer_for, DevGateway, DevTransfer, insert}
use rookopg.Checkin.Repository.{ArrivalInput, PassWithBooking, record_arrival}
use rookopg.Checkin.Service.{assert_redeemable}
use rookopg.Checkin.NoShow.{no_show_refund}
use rookopg.Checkin.Arrival.{record_arrival_again}
use rookopg.Checkin.Money.{no_show_refund_refused}
use rookopg.Tests.ListClient.{list_prisma}
use rookopg.Tests.Samples.{held_db, sample_booking, sample_pass}
use rookopg.Tests.Payments.{sample_gateway, sample_transfer}

abbrev pass : CheckinToken
pass = issued_pass 5 3 2 sample_pass

abbrev booking : Booking
booking = record sample_booking { status = confirmed }

abbrev moved_in : Db
moved_in = record held_db { bookings = booking ∷ []; passes = pass ∷ [] }

abbrev arrival : ArrivalInput
arrival = record {
  pass_id = 3;
  booking_id = 2;
  property_id = 8;
  tenancy_id = none;
  actor_id = 6;
  method = qr;
}

abbrev left_by : Result (Bool × Db) → Db
left_by (ok (claimed, db)) = db
left_by (throw e) = moved_in

arrived_first :
    record_arrival list_prisma 9 arrival moved_in
    ≡ ok (true, left_by (record_arrival list_prisma 9 arrival moved_in))
unfolding record_arrival
arrived_first = refl

record_arrival_again_example :
    record_arrival list_prisma 10
      (record arrival { actor_id = 7; method = manual })
      (left_by (record_arrival list_prisma 9 arrival moved_in))
    ≡ ok (false, left_by (record_arrival list_prisma 9 arrival moved_in))
record_arrival_again_example =
    record_arrival_again list_prisma 9 10 arrival (record arrival { actor_id = 7; method = manual })
      moved_in refl arrived_first

abbrev redeemed : PassWithBooking
redeemed = record { pass = pass; booking = booking; tenancy_id = none }

accepted : (assert_redeemable 9 redeemed moved_in).0 ≡ ok tt
unfolding assert_redeemable
accepted = refl

-- Ten percent commission on 7,000 rupees, and a deposit of 1,000.
abbrev price : PriceInput
price = record {
  monthly_rent_paise = pos 700000;
  deposit_paise = pos 100000;
  commission_bps = 1000;
  convenience_fee_paise = pos 500;
  commission_applies = true;
}

abbrev commission_transfer : DevTransfer
commission_transfer = record sample_transfer { owner_share_paise = pos 730000 }

abbrev commission_gateway : DevGateway
commission_gateway = record sample_gateway { transfers = insert 30 commission_transfer λ k. none }

price_of : (price_booking price).commission_paise ≡ 70000
unfolding price_booking round_div
price_of = refl

rent_of : booking.agreed_rent_paise ≡ (price_booking price).rent_paise
unfolding price_booking
rent_of = refl

deposit_of : booking.agreed_deposit_paise ≡ (price_booking price).deposit_paise
unfolding price_booking
deposit_of = refl

share_of : commission_transfer.owner_share_paise ≡ (price_booking price).owner_share_paise
unfolding price_booking round_div
share_of = refl

transfer_of : transfer_for commission_gateway 31 ≡ some (30, commission_transfer)
unfolding transfer_for
transfer_of = refl

no_show_refund_refused_example :
    refund_to_tenant 70 (no_show_refund booking 31) commission_gateway ≡ (
      throw (gateway_error "Refund and release together exceed the amount held"),
      commission_gateway,
    )
no_show_refund_refused_example =
    no_show_refund_refused price booking 70 31 30 commission_transfer commission_gateway
      (rw price_of (omega arith)) rent_of deposit_of transfer_of refl share_of refl
