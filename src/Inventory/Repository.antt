-- ===== src/Inventory/Repository.antt =====
-- inventory.repository.ts. Lists come without their display order; `now` is the time that a method reads,
-- and `today` its day. The labels of a room's beds differ, so the index on them refuses no new bed.
use rookopg.Prelude.{
  ℕ, ◌+◌, Bool, true, false, not, ◌&&◌, Option, none, some, List, [], ◌∷◌, ◌==◌, ltb, leb, any, map,
  length, if◌then◌else◌, is_none,
}
use rookopg.Calendar.{Date}
use rookopg.Errors.{Result, ok, unique_violation, require, ◌>>=◌, ◌>>◌}
use rookopg.Database.{
  Room, room_active, RoomGender, SaleMode, Bed, BedStatus, bed_active, Property, BedAllocation, Db,
  is_active,
}
use rookopg.Database.Client.{Prisma}
use rookopg.Inventory.{RoomPlan, same_text}

pub record RoomWithBeds : Type 0 where
  pub room : Room
  pub beds : List Bed

pub record FoundBed : Type 0 where
  pub id : ℕ
  pub room_id : ℕ
  pub property_id : ℕ
  pub org_id : ℕ

-- Free today, and then claimed from a day on, or occupied until a day.
pub record BedOccupancy : Type 0 where
  pub occupied : Bool
  pub available_from : Option Date
  pub reserved_from : Option Date

-- The columns that an update gives.
pub record RoomChange : Type 0 where
  pub code : Option (List ℕ)
  pub floor : Option ℕ
  pub gender : Option RoomGender
  pub base_rent_paise : Option ℕ
  pub deposit_paise : Option ℕ
  pub sale_mode : Option SaleMode
  pub has_ac : Option Bool
  pub has_attached_bath : Option Bool
  pub has_balcony : Option Bool

pub record BedChange : Type 0 where
  pub status : Option BedStatus
  pub rent_override_paise : Option (Option ℕ)

abbrev pub given : {A : Type 0} → Option A → A → A
given none a = a
given (some b) a = b

abbrev pub given_floor : Option ℕ → Option ℕ → Option ℕ
given_floor none floor = floor
given_floor (some f) floor = some f

abbrev pub set_room : RoomChange → Room → Room
set_room c r = record r {
  code = given c.code r.code;
  floor = given_floor c.floor r.floor;
  gender = given c.gender r.gender;
  base_rent_paise = given c.base_rent_paise r.base_rent_paise;
  deposit_paise = given c.deposit_paise r.deposit_paise;
  sale_mode = given c.sale_mode r.sale_mode;
  has_ac = given c.has_ac r.has_ac;
  has_attached_bath = given c.has_attached_bath r.has_attached_bath;
  has_balcony = given c.has_balcony r.has_balcony;
}

abbrev pub set_bed : BedChange → Bed → Bed
set_bed c b = record b {
  status = given c.status b.status;
  rent_override_paise = given c.rent_override_paise b.rent_override_paise;
}

abbrev pub is_room : ℕ → Room → Bool
is_room room_id r = r.id == room_id

abbrev pub is_there : ℕ → Room → Bool
is_there room_id r = (r.id == room_id) && is_none r.deleted_at

abbrev pub stands_in : ℕ → Bed → Bool
stands_in room_id b = (b.room_id == room_id) && is_none b.deleted_at

abbrev pub is_coded : ℕ → List ℕ → Room → Bool
is_coded property_id code r = (r.property_id == property_id) && same_text r.code code

abbrev pub new_room : ℕ → ℕ → ℕ → RoomPlan → Room
new_room id property_id org_id plan = record {
  id = id;
  property_id = property_id;
  org_id = org_id;
  code = plan.code;
  floor = plan.floor;
  sharing_type = plan.sharing_type;
  sharing_capacity = plan.sharing_capacity;
  sale_mode = plan.sale_mode;
  gender = plan.gender;
  has_ac = plan.has_ac;
  has_attached_bath = plan.has_attached_bath;
  has_balcony = plan.has_balcony;
  base_rent_paise = plan.base_rent_paise;
  deposit_paise = plan.deposit_paise;
  status = room_active;
  deleted_at = none;
}

abbrev pub new_bed : ℕ → ℕ → ℕ → List ℕ → Bed
new_bed id room_id property_id code = record {
  id = id;
  room_id = room_id;
  property_id = property_id;
  code = code;
  status = bed_active;
  rent_override_paise = none;
  deleted_at = none;
}

abbrev pub claims_one_of : List ℕ → BedAllocation → Bool
claims_one_of bed_ids a = any (λ k. k == a.bed_id) bed_ids && is_active a.status

-- The unique index on a property's room codes.
abbrev pub codes_apart : List Room → Bool
codes_apart [] = true
codes_apart (r ∷ rooms) = not (any (is_coded r.property_id r.code) rooms) && codes_apart rooms

-- `current` of a bed, after one more claim.
unfoldable pub noted : Date → BedAllocation → BedOccupancy → BedOccupancy
noted today a current =
    if leb a.start_date today
    then record current { occupied = true; available_from = a.end_date }
    else if is_none current.reserved_from
    then record current { reserved_from = some a.start_date }
    else current

unfoldable pub note_each :
    Date → List BedAllocation → List (ℕ × BedOccupancy) → List (ℕ × BedOccupancy)
note_each today [] result = result
note_each today (a ∷ rest) result =
    note_each today rest (map (λ e. if e.0 == a.bed_id then (e.0, noted today a e.1) else e) result)

abbrev pub vacant : BedOccupancy
vacant = record { occupied = false; available_from = none; reserved_from = none }

abbrev pub ends_past : Date → Option Date → Bool
ends_past today none = true
ends_past today (some until) = ltb today until

abbrev pub is_live_claim : Date → List ℕ → BedAllocation → Bool
is_live_claim today bed_ids a = claims_one_of bed_ids a && ends_past today a.end_date

module _ (prisma : Prisma) where
  -- `createMany` of a room's beds, with ids from a number on.
  abbrev pub with_beds : ℕ → ℕ → ℕ → List (List ℕ) → List Bed → List Bed
  with_beds id room_id property_id [] beds = beds
  with_beds id room_id property_id (code ∷ codes) beds =
      prisma.create Bed (new_bed id room_id property_id code)
        (with_beds (id + 1) room_id property_id codes beds)

  abbrev pub beds_in : Db → Room → RoomWithBeds
  beds_in db r = record { room = r; beds = prisma.find_many Bed (stands_in r.id) db.beds }

  unfoldable pub list_rooms : ℕ → Db → List RoomWithBeds
  list_rooms property_id db =
      map (beds_in db) (
        prisma.find_many Room (λ r. (r.property_id == property_id) && is_none r.deleted_at)
          db.rooms)

  abbrev pub joined_beds : Db → Option Room → Option RoomWithBeds
  joined_beds db none = none
  joined_beds db (some r) = some (beds_in db r)

  unfoldable pub find_room : ℕ → Db → Option RoomWithBeds
  find_room room_id db = joined_beds db (prisma.find_first Room (is_there room_id) db.rooms)

  abbrev pub joined_property : Bed → Option Property → Option FoundBed
  joined_property b none = none
  joined_property b (some p) =
      some
        (record { id = b.id; room_id = b.room_id; property_id = b.property_id; org_id = p.org_id })

  unfoldable pub find_bed : ℕ → Db → Option FoundBed
  find_bed bed_id db =
      elim (prisma.find_first Bed (λ b. (b.id == bed_id) && is_none b.deleted_at) db.beds) [
        | none ↦ none
        | some b ↦
            joined_property b
              (prisma.find_first Property (λ p. p.id == b.property_id) db.properties)
      ]

  unfoldable pub existing_room_codes : ℕ → List (List ℕ) → Db → List (List ℕ)
  existing_room_codes property_id [] db = []
  existing_room_codes property_id (code ∷ codes) db =
      map (λ r. r.code)
        (prisma.find_many Room
          (λ r.
            (r.property_id == property_id)
            && any (same_text r.code) (code ∷ codes)
            && is_none r.deleted_at)
          db.rooms)

  -- One round of the loop: the room and its beds.
  abbrev pub with_room : ℕ → ℕ → RoomPlan → Db → Db
  with_room property_id org_id plan db = record db {
    next_id = db.next_id + 1 + length plan.bed_codes;
    rooms = prisma.create Room (new_room db.next_id property_id org_id plan) db.rooms;
    beds = with_beds (db.next_id + 1) db.next_id property_id plan.bed_codes db.beds;
  }

  -- The loop of the transaction. The index on a property's room codes also counts deleted rooms.
  unfoldable pub create_each : ℕ → ℕ → List RoomPlan → Db → Result (List ℕ × Db)
  create_each property_id org_id [] db = ok ([], db)
  create_each property_id org_id (plan ∷ plans) db = do
    require (not (any (is_coded property_id plan.code) db.rooms)) unique_violation
    (ids, db') ← create_each property_id org_id plans (with_room property_id org_id plan db)
    ok (db.next_id ∷ ids, db')

  unfoldable pub create_rooms_with_beds :
      ℕ → ℕ → List RoomPlan → Db → Result (List RoomWithBeds × Db)
  create_rooms_with_beds property_id org_id plans db = do
    (ids, db') ← create_each property_id org_id plans db
    ok (map (beds_in db') (prisma.find_many Room (λ r. any (λ k. k == r.id) ids) db'.rooms), db')

  unfoldable pub update_room : ℕ → RoomChange → Db → Result Db
  update_room room_id change db = do
    rooms ← prisma.update Room (is_room room_id) (set_room change) db.rooms
    require (codes_apart rooms) unique_violation
    ok (record db { rooms = rooms })

  unfoldable pub update_bed : ℕ → BedChange → Db → Result Db
  update_bed bed_id change db = do
    beds ← prisma.update Bed (λ b. b.id == bed_id) (set_bed change) db.beds
    ok (record db { beds = beds })

  unfoldable pub soft_delete_room : Date → ℕ → Db → Result Db
  soft_delete_room now room_id db = do
    rooms ← prisma.update Room (is_room room_id) (λ r. record r { deleted_at = some now }) db.rooms
    ok (record db {
      rooms = rooms;
      beds =
          prisma.update_many Bed (stands_in room_id) (λ b. record b { deleted_at = some now })
            db.beds;
    })

  unfoldable pub occupancy_for : Date → List ℕ → Db → List (ℕ × BedOccupancy)
  occupancy_for today bed_ids db =
      note_each today
        (prisma.find_ordered BedAllocation (λ a. a.start_date) (is_live_claim today bed_ids)
          db.allocations)
        (map (λ k. (k, vacant)) bed_ids)

  unfoldable pub count_active_allocations : List ℕ → Db → ℕ
  count_active_allocations bed_ids db =
      length (prisma.find_many BedAllocation (claims_one_of bed_ids) db.allocations)
