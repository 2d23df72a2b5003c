-- ===== src/Inventory/Service.antt =====
-- inventory.service.ts, over the database. The answers' shape, but for the beds' occupancy, is left out.
use rookopg.Prelude.{
  ℕ, Bool, true, false, not, ◌&&◌, Option, none, some, List, [], ◌∷◌, ◌++◌, ◌==◌, map, is_none,
  if◌then◌else◌,
}
use rookopg.Calendar.{Date}
use rookopg.RentCycle.{start_of_day}
use rookopg.Errors.{not_found, conflict, hide_forbidden}
use rookopg.Iam.{AuthenticatedActor, OrgRole, owner, manager, assert_property_access}
use rookopg.Database.{Property, BedStatus, bed_active}
use rookopg.Database.Client.{Prisma}
use rookopg.Database.Session.{
  Session, ◌>>=◌, ◌>>◌, pure, lift, reads, transact, transact_with, require_s, require_some,
}
use rookopg.Inventory.{
  RoomAttributes, BulkFloor, plan_room, plan_bulk, plan_code, is_empty, same_text,
}
use rookopg.Inventory.Repository.{
  RoomWithBeds, RoomChange, BedChange, BedOccupancy, list_rooms, find_room, find_bed,
  existing_room_codes, create_rooms_with_beds, update_room, update_bed, soft_delete_room,
  count_active_allocations, occupancy_for,
}

abbrev pub inventory_writers : List OrgRole
inventory_writers = owner ∷ manager ∷ []

-- `dto.status && dto.status !== BedStatus.ACTIVE`
abbrev pub leaves_service : Option BedStatus → Bool
leaves_service none = false
leaves_service (some bed_active) = false
leaves_service (some _) = true

-- `dto.code && dto.code !== room.code`
abbrev pub renames : Option (List ℕ) → List ℕ → Bool
renames none code = false
renames (some []) code = false
renames (some (c ∷ cs)) code = not (same_text (c ∷ cs) code)

abbrev pub codes_of : Option (List ℕ) → List (List ℕ)
codes_of none = []
codes_of (some code) = code ∷ []

abbrev pub bed_ids : RoomWithBeds → List ℕ
bed_ids r = map (λ b. b.id) r.beds

-- `rooms.flatMap((room) => room.beds.map((bed) => bed.id))`
abbrev pub ids_of : List RoomWithBeds → List ℕ
ids_of [] = []
ids_of (r ∷ rooms) = bed_ids r ++ ids_of rooms

module _ (prisma : Prisma) where
  unfoldable pub assert_inventory_access : AuthenticatedActor → ℕ → List OrgRole → Session Property
  assert_inventory_access actor property_id roles = do
    found ← reads (λ db.
        prisma.find_first Property (λ p. (p.id == property_id) && is_none p.deleted_at)
          db.properties)
    property ← require_some found (not_found "Property")
    lift
        (hide_forbidden "Property" (assert_property_access actor property.org_id property.id roles))
    pure property

  unfoldable pub assert_codes_free : ℕ → List (List ℕ) → Session (Unit {0})
  assert_codes_free property_id codes = do
    taken ← reads (existing_room_codes prisma property_id codes)
    require_s (is_empty taken) (conflict "These room numbers already exist")

  unfoldable pub rooms_of :
      Date → AuthenticatedActor → ℕ → Session (List RoomWithBeds × List (ℕ × BedOccupancy))
  rooms_of now actor property_id = do
    property ← assert_inventory_access actor property_id []
    rooms ← reads (list_rooms prisma property_id)
    reads (λ db. (rooms, occupancy_for prisma (start_of_day now) (ids_of rooms) db))

  unfoldable pub create_room :
      AuthenticatedActor → ℕ → RoomAttributes → List ℕ → Option ℕ → Session (List RoomWithBeds)
  create_room actor property_id input code floor = do
    property ← assert_inventory_access actor property_id inventory_writers
    plan ← lift (plan_room input code floor)
    assert_codes_free property_id (plan.code ∷ [])
    transact_with (create_rooms_with_beds prisma property_id property.org_id (plan ∷ []))

  unfoldable pub bulk_create_rooms :
      AuthenticatedActor → ℕ → List BulkFloor → Session (List RoomWithBeds)
  bulk_create_rooms actor property_id floors = do
    property ← assert_inventory_access actor property_id inventory_writers
    plans ← lift (plan_bulk floors)
    assert_codes_free property_id (map plan_code plans)
    transact_with (create_rooms_with_beds prisma property_id property.org_id plans)

  unfoldable pub change_room : AuthenticatedActor → ℕ → RoomChange → Session (Unit {0})
  change_room actor room_id change = do
    found ← reads (find_room prisma room_id)
    room ← require_some found (not_found "Room")
    property ← assert_inventory_access actor room.room.property_id inventory_writers
    if renames change.code room.room.code
        then assert_codes_free room.room.property_id (codes_of change.code)
        else pure tt
    transact (update_room prisma room_id change)

  unfoldable pub remove_room : Date → AuthenticatedActor → ℕ → Session (Unit {0})
  remove_room now actor room_id = do
    found ← reads (find_room prisma room_id)
    room ← require_some found (not_found "Room")
    property ← assert_inventory_access actor room.room.property_id inventory_writers
    claims ← reads (count_active_allocations prisma (bed_ids room))
    require_s (claims == 0)
        (conflict "This room has an active booking or tenancy. Move or end those first.")
    transact (soft_delete_room prisma now room_id)

  unfoldable pub change_bed : AuthenticatedActor → ℕ → BedChange → Session (Unit {0})
  change_bed actor bed_id change = do
    found ← reads (find_bed prisma bed_id)
    bed ← require_some found (not_found "Bed")
    property ← assert_inventory_access actor bed.property_id inventory_writers
    claims ← reads (λ db.
        if leaves_service change.status
        then count_active_allocations prisma (bed_id ∷ []) db
        else 0)
    require_s (claims == 0)
        (conflict "This bed has an active booking or tenancy and cannot be taken out of service.")
    transact (update_bed prisma bed_id change)
