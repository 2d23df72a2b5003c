-- ===== src/Tests/Tenancy.antt =====
-- The theorems on stays and on phone numbers, at one bed.
use rookopg.Prelude.{ℕ, ◌≡◌, refl, true, false, none, some, List, [], ◌∷◌, ◌&&◌, any, arith}
use rookopg.Errors.{Result, ok, throw, hide_forbidden, not_found}
use rookopg.Iam.{
  assert_property_access, assert_org_access, check_role, check_scope, find_membership,
  platform_staff_may_act, is_platform_staff,
}
use rookopg.Database.{Db, BedAllocation, Tenancy}
use rookopg.Phone.{normalise_phone, normalise_phone_lem}
use rookopg.Tenancy.Repository.{
  SeatInput, seat_walk_in, seat_claim, find_tenancy, check_out_repo, check_out_tenancy, claims_of,
  has_tenancy_id, find_bed_for_seating,
}
use rookopg.Tenancy.Service.{
  SeatTenantDto, seat_tenant, check_tenant_out, load_authorised, tenancy_writers, has_not_left,
  to_date,
}
use rookopg.Tenancy.Occupancy.{Takes, calendar_of, seat_walk_in-Takes}
use rookopg.Tenancy.Stay.{check_tenant_out_lem}
use rookopg.Billing.Service.{assert_access}
use rookopg.Tests.ListClient.{list_prisma}
use rookopg.Tests.Samples.{empty_db}
use rookopg.Tests.Rights.{warden}
use rookopg.Tests.Ledger.{resident, let_db}

abbrev walk_in : SeatInput
walk_in = record {
  org_id = 7;
  property_id = 8;
  bed_id = 10;
  room_id = 9;
  phone = 919876543210;
  full_name = "Asha";
  start_date = 0;
  agreed_rent_paise = 300000;
  deposit_paise = 100000;
  cycle_anchor_day = 1;
  notice_days = 30;
  actor_id = 6;
}

abbrev seated : Result (Tenancy × Db) → Tenancy × Db
seated (ok r) = r
seated (throw e) = (resident, empty_db)

abbrev after_seating : Tenancy × Db
after_seating = seated (seat_walk_in list_prisma 5 walk_in let_db)

was_seated : seat_walk_in list_prisma 5 walk_in let_db ≡ ok (after_seating.0, after_seating.1)
unfolding seat_walk_in
was_seated = refl

seat_walk_in-Takes_example :
    Takes 10 0 (calendar_of let_db.allocations) (calendar_of after_seating.1.allocations)
seat_walk_in-Takes_example = seat_walk_in-Takes list_prisma 5 walk_in let_db was_seated

abbrev stay_claim : BedAllocation
stay_claim = record (seat_claim walk_in 69) { tenancy_id = some 70 }

abbrev stay_db : Db
stay_db = record let_db { allocations = stay_claim ∷ [] }

was_checked_out :
    (check_tenant_out list_prisma 5 warden 70 (some (some 86400000)) none stay_db).0 ≡ ok tt
unfolding check_tenant_out load_authorised hide_forbidden assert_property_access assert_org_access
    check_role check_scope find_membership platform_staff_may_act is_platform_staff find_tenancy
    to_date check_out_repo check_out_tenancy
was_checked_out = refl

check_tenant_out_lem_example :
    let db' = (check_tenant_out list_prisma 5 warden 70 (some (some 86400000)) none stay_db).1 in
    (t : Tenancy) × (find_tenancy list_prisma 70 stay_db ≡ some t)
    × (assert_property_access warden t.org_id t.property_id tenancy_writers ≡ ok tt)
    × (has_not_left t.status ≡ true)
    × (any (claims_of 70) db'.allocations ≡ false)
    × (any (λ t. has_tenancy_id 70 t && has_not_left t.status) db'.tenancies ≡ false)
check_tenant_out_lem_example =
    check_tenant_out_lem list_prisma 5 warden 70 (some (some 86400000)) none stay_db was_checked_out

abbrev seat_dto : SeatTenantDto
seat_dto = record {
  bed_id = 10;
  phone = [];
  full_name = "Asha";
  start_date = none;
  agreed_rent_paise = none;
  deposit_paise = none;
  cycle_anchor_day = none;
  notice_days = none;
}

no_bed : (seat_tenant list_prisma 5 warden 8 seat_dto stay_db).0 ≡ throw (not_found "Bed")
unfolding seat_tenant assert_access hide_forbidden assert_property_access assert_org_access
    check_role check_scope find_membership platform_staff_may_act is_platform_staff
    find_bed_for_seating
no_bed = refl

-- 9876543210
abbrev pub local : List ℕ
local = 57 ∷ 56 ∷ 55 ∷ 54 ∷ 53 ∷ 52 ∷ 51 ∷ 50 ∷ 49 ∷ 48 ∷ []

normalise_phone_lem_example :
    (normalise_phone local ≡ some (919876543210))
    × (normalise_phone (48 ∷ local) ≡ some (919876543210))
    × (normalise_phone (57 ∷ 49 ∷ local) ≡ some (919876543210))
    × (normalise_phone (43 ∷ 57 ∷ 49 ∷ local) ≡ some (919876543210))
normalise_phone_lem_example = normalise_phone_lem local (
  omega arith,
  omega arith,
  refl,
  (refl, (refl, (refl, (refl, (refl, (refl, (refl, (refl, (refl, tt))))))))),
)
