-- ===== src/Tests/Rights.antt =====
-- The theorems on who may do what, on the lockout and on the sweep, at sample rows.
use rookopg.Prelude.{ℕ, ◌+◌, length, any, All, arith, ◌≡◌, refl, true, false, some, none, [], ◌∷◌}
use rookopg.Errors.{ok, hide_forbidden}
use rookopg.Iam.{
  AuthenticatedActor, manager, assert_property_access, assert_org_access, check_role, check_scope,
  find_membership, platform_staff_may_act, is_platform_staff,
}
use rookopg.Database.{Db, Property, pending_approval}
use rookopg.Booking.Repository.{
  find_lapsed, has_lapsed, claims, release_booking, find_by_id, approve, on_confirmed,
  confirm_booking,
}
use rookopg.Booking.Service.{load_for_owner, approve_booking, expire_lapsed, expire_each}
use rookopg.Booking.Expiry.{expire_lapsed_lem}
use rookopg.Checkin.Repository.{code_locked_until}
use rookopg.Checkin.Service.{assert_staff_at}
use rookopg.Tests.ListClient.{list_prisma}
use rookopg.Tests.Samples.{held_db, sample_booking, settings, drawn}

abbrev tenant : AuthenticatedActor
tenant = record { user_id = 11; memberships = []; platform_roles = [] }

abbrev pub warden : AuthenticatedActor
warden = record {
  user_id = 6;
  memberships =
      record { org_id = 7; role = manager; can_create_properties = false; property_ids = 8 ∷ [] }
      ∷ [];
  platform_roles = [];
}

expire_lapsed_lem_example :
    (h a : ℕ) × (db' : Db) × (expire_lapsed list_prisma settings 1000000 held_db ≡ (ok (h, a), db'))
    × (h + a ≡ length (find_lapsed list_prisma 1000000 held_db))
    × (any (has_lapsed 1000000) db'.bookings ≡ false)
    × All
        (λ b. has_lapsed 1000000 b ≡ true → any (claims b.id) db'.allocations ≡ false)
        held_db.bookings
expire_lapsed_lem_example = expire_lapsed_lem list_prisma settings 1000000 held_db (omega arith)

swept_one : (expire_lapsed list_prisma settings 1000000 held_db).0 ≡ ok (1, 0)
unfolding expire_lapsed expire_each find_lapsed release_booking
swept_one = refl

found_there : find_by_id list_prisma 2 held_db ≡ some sample_booking
unfolding find_by_id
found_there = refl

abbrev waiting_db : Db
waiting_db = record held_db { bookings = record sample_booking { status = pending_approval } ∷ [] }

was_approved : (approve_booking list_prisma settings drawn warden 2 waiting_db).0 ≡ ok tt
unfolding approve_booking load_for_owner find_by_id hide_forbidden assert_property_access
    assert_org_access check_role check_scope find_membership platform_staff_may_act
    is_platform_staff approve on_confirmed confirm_booking
was_approved = refl

abbrev locked_property : Property
locked_property = record {
  id = 8;
  org_id = 7;
  auto_confirm_bookings = true;
  checkin_code_failures = 0;
  checkin_code_locked_until = some 500;
  deleted_at = none;
}

abbrev locked_db : Db
locked_db = record held_db { properties = locked_property ∷ [] }

staff_there : assert_staff_at list_prisma warden 8 locked_db ≡ (ok tt, locked_db)
unfolding assert_staff_at hide_forbidden assert_property_access assert_org_access check_role
    check_scope find_membership platform_staff_may_act is_platform_staff
staff_there = refl

locked_there : code_locked_until list_prisma 9 8 locked_db ≡ some 500
unfolding code_locked_until
locked_there = refl
