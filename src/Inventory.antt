-- ===== src/Inventory.antt =====
-- apps/backend/src/modules/inventory/inventory.service.ts: `planRoom` and what `bulkCreateRooms` does
-- before it touches the database; the children model the rest. Floors below the ground, and the
-- numbers and codes that the messages quote, are left out.
pub mod Plans
pub mod Repository
pub mod Service
pub mod Removal
pub mod Created
pub mod Board
use rookopg.Prelude.{
  ℕ, zero, suc, ◌+◌, Bool, true, false, ◌&&◌, not, any, Option, none, some, or_else, List, [], ◌∷◌,
  ◌++◌, map, length, ltb, leb, ◌==◌, if◌then◌else◌,
}
use rookopg.Errors.{Result, ok, throw, conflict, require, ◌>>=◌, ◌>>◌}
use rookopg.Database.{SaleMode, RoomGender, per_bed}
use rookopg.BedLabels.{SharingType, default_capacity_for, bed_labels, room_code}

-- What the rooms of a request have in common.
pub record RoomAttributes : Type 0 where
  pub sharing_type : SharingType
  pub sharing_capacity : Option ℕ
  pub gender : RoomGender
  pub base_rent_paise : ℕ
  pub deposit_paise : Option ℕ
  pub sale_mode : Option SaleMode
  pub has_ac : Option Bool
  pub has_attached_bath : Option Bool
  pub has_balcony : Option Bool

pub record BulkFloor : Type 0 where
  pub attributes : RoomAttributes
  pub floor : ℕ
  pub room_count : ℕ
  pub start_number : Option ℕ

pub record RoomPlan : Type 0 where
  pub code : List ℕ
  pub floor : Option ℕ
  pub sharing_type : SharingType
  pub sharing_capacity : ℕ
  pub sale_mode : SaleMode
  pub gender : RoomGender
  pub base_rent_paise : ℕ
  pub deposit_paise : ℕ
  pub has_ac : Bool
  pub has_attached_bath : Bool
  pub has_balcony : Bool
  pub bed_codes : List (List ℕ)

abbrev pub max_rooms_per_bulk : ℕ
max_rooms_per_bulk = 200

abbrev pub room_plan : RoomAttributes → List ℕ → Option ℕ → ℕ → RoomPlan
room_plan input code floor capacity = record {
  code = code;
  floor = floor;
  sharing_type = input.sharing_type;
  sharing_capacity = capacity;
  sale_mode = or_else input.sale_mode per_bed;
  gender = input.gender;
  base_rent_paise = input.base_rent_paise;
  deposit_paise = or_else input.deposit_paise 0;
  has_ac = or_else input.has_ac false;
  has_attached_bath = or_else input.has_attached_bath false;
  has_balcony = or_else input.has_balcony false;
  bed_codes = bed_labels capacity;
}

-- The capacity asked for against the one that the sharing type implies.
unfoldable pub agreed_capacity : Option ℕ → Option ℕ → Result ℕ
agreed_capacity none none = throw (conflict "sharingCapacity is required for a DORMITORY room")
agreed_capacity none (some asked) = ok asked
agreed_capacity (some implied) none = ok implied
agreed_capacity (some implied) (some asked) =
    if asked == implied
    then ok asked
    else throw (conflict "This room holds another number of beds. Use DORMITORY for other sizes.")

unfoldable pub plan_room : RoomAttributes → List ℕ → Option ℕ → Result RoomPlan
unfolding agreed_capacity
plan_room input code floor =
    agreed_capacity (default_capacity_for input.sharing_type) input.sharing_capacity >>= λ capacity.
    ok (room_plan input code floor capacity)

-- The rooms of one floor, from a number on.
unfoldable pub plan_floor : BulkFloor → ℕ → ℕ → Result (List RoomPlan)
unfolding plan_room
plan_floor f number zero = ok []
plan_floor f number (suc count) =
    plan_room f.attributes (room_code f.floor number) (some f.floor) >>= λ plan.
    plan_floor f (number + 1) count >>= λ plans. ok (plan ∷ plans)

unfoldable pub plan_floors : List BulkFloor → Result (List RoomPlan)
unfolding plan_floor
plan_floors [] = ok []
plan_floors (f ∷ floors) = plan_floor f (or_else f.start_number 1) f.room_count >>= λ plans.
    plan_floors floors >>= λ rest. ok (plans ++ rest)

abbrev pub same_text : List ℕ → List ℕ → Bool
same_text [] [] = true
same_text [] (d ∷ ds) = false
same_text (c ∷ cs) [] = false
same_text (c ∷ cs) (d ∷ ds) = (c == d) && same_text cs ds

-- `codes.filter((code, index) => codes.indexOf(code) !== index)`: the codes that stand earlier too,
-- where `earlier` holds those before.
unfoldable pub duplicated : List (List ℕ) → List (List ℕ) → List (List ℕ)
duplicated earlier [] = []
duplicated earlier (code ∷ codes) =
    let rest = duplicated (code ∷ earlier) codes in
    if any (same_text code) earlier then code ∷ rest else rest

abbrev pub is_empty {ℓ} : {A : Type ℓ} → List A → Bool
is_empty [] = true
is_empty (x ∷ xs) = false

abbrev pub plan_code : RoomPlan → List ℕ
plan_code plan = plan.code

unfoldable pub plan_bulk : List BulkFloor → Result (List RoomPlan)
unfolding plan_floors duplicated
plan_bulk floors = plan_floors floors >>= λ plans.
    require (ltb 0 (length plans)) (conflict "No rooms to create")
    >> require (leb (length plans) max_rooms_per_bulk)
        (conflict "That would create too many rooms. The limit is 200 per request.")
    >> require (is_empty (duplicated [] (map plan_code plans)))
        (conflict "These room numbers appear twice in the request")
    >> ok plans
