-- ===== src/Tests/Inventory.antt =====
-- The inventory theorems at one property.
use rookopg.Prelude.{◌+◌, ◌≡◌, ◌≤◌, refl, false, some, List, [], ◌∷◌, All, any, map, length, sum_of}
use rookopg.Errors.{Result, ok, throw, hide_forbidden}
use rookopg.Iam.{
  assert_property_access, assert_org_access, check_role, check_scope, find_membership,
  platform_staff_may_act, is_platform_staff,
}
use rookopg.BedLabels.{room_code, default_capacity_for, to_string, pad_two}
use rookopg.Database.{Db}
use rookopg.Inventory.{RoomPlan, plan_bulk}
use rookopg.Inventory.Repository.{
  RoomWithBeds, find_room, is_there, stands_in, claims_one_of, soft_delete_room,
  count_active_allocations, occupancy_for, create_rooms_with_beds, create_each, existing_room_codes,
}
use rookopg.Inventory.Service.{
  bed_ids, remove_room, bulk_create_rooms, assert_inventory_access, assert_codes_free,
}
use rookopg.Inventory.Removal.{remove_room_lem}
use rookopg.Inventory.Created.{bulk_create_rooms_lem}
use rookopg.Inventory.Board.{IsShown, occupancy_for_lem}
use rookopg.Tests.ListClient.{list_prisma}
use rookopg.Tests.Samples.{sample_claim}
use rookopg.Tests.Rights.{warden}
use rookopg.Tests.Checkout.{listed_db}
use rookopg.Tests.Rooms.{sample_floors}

abbrev removed : Result (Unit {0}) × Db
removed = remove_room list_prisma 5 warden 9 listed_db

was_removed : remove_room list_prisma 5 warden 9 listed_db ≡ (ok tt, removed.1)
unfolding remove_room find_room assert_inventory_access hide_forbidden assert_property_access
    assert_org_access check_role check_scope find_membership platform_staff_may_act
    is_platform_staff soft_delete_room count_active_allocations
was_removed = refl

remove_room_lem_example :
    (room : RoomWithBeds) × (find_room list_prisma 9 listed_db ≡ some room)
    × (any (claims_one_of (bed_ids room)) listed_db.allocations ≡ false)
    × (any (is_there 9) removed.1.rooms ≡ false)
    × (any (stands_in 9) removed.1.beds ≡ false)
    × (removed.1.allocations ≡ listed_db.allocations)
remove_room_lem_example = remove_room_lem list_prisma 5 warden 9 listed_db was_removed

abbrev grown : Result (List RoomWithBeds) × Db
grown = bulk_create_rooms list_prisma warden 8 sample_floors listed_db

abbrev rooms_in : Result (List RoomWithBeds) → List RoomWithBeds
rooms_in (ok rooms) = rooms
rooms_in (throw e) = []

was_grown :
    bulk_create_rooms list_prisma warden 8 sample_floors listed_db
    ≡ (ok (rooms_in grown.0), grown.1)
unfolding bulk_create_rooms assert_codes_free existing_room_codes create_rooms_with_beds create_each
    assert_inventory_access hide_forbidden assert_property_access assert_org_access check_role
    check_scope find_membership platform_staff_may_act is_platform_staff plan_bulk room_code
    default_capacity_for to_string pad_two
was_grown = refl

bulk_create_rooms_lem_example :
    (plans : List RoomPlan) × (plan_bulk sample_floors ≡ ok plans)
    × (length grown.1.rooms ≡ sum_of (λ f. f.room_count) sample_floors + length listed_db.rooms)
    × (sum_of (λ f. f.room_count) sample_floors ≤ 200)
    × (length grown.1.beds ≡ sum_of (λ p. p.sharing_capacity) plans + length listed_db.beds)
    × (grown.1.allocations ≡ listed_db.allocations)
bulk_create_rooms_lem_example =
    bulk_create_rooms_lem list_prisma warden 8 sample_floors listed_db was_grown

abbrev claimed_db : Db
claimed_db = record listed_db { allocations = sample_claim ∷ [] }

occupancy_for_lem_example :
    (map (λ e. e.0) (occupancy_for list_prisma 0 (10 ∷ []) claimed_db) ≡ 10 ∷ [])
    × All
        (IsShown list_prisma 0 (10 ∷ []) claimed_db)
        (occupancy_for list_prisma 0 (10 ∷ []) claimed_db)
occupancy_for_lem_example = occupancy_for_lem list_prisma 0 (10 ∷ []) claimed_db
