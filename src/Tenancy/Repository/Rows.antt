-- ===== src/Tenancy/Repository/Rows.antt =====
-- tenancy.repository.ts: what its methods take, look for and write, row by row.
use Prim.Native.String.{String}
use rookopg.Prelude.{ℕ, Bool, true, false, not, ◌&&◌, Option, none, some, List, [], ◌∷◌, ◌==◌, any}
use rookopg.Calendar.{Date}
use rookopg.Database.{
  tenancy_claim, AllocationKind, active, offline, checked_in, money_held, Booking, Tenancy,
  TenancyStatus, tenancy_active, notice_given, ended, TenancyStatusHistory, BedAllocation, User,
  unclaimed, Room, Bed, BedStatus, Property, is_active, is_id, overlaps,
}
use rookopg.Database.Client.{Prisma}

pub record SeatInput : Type 0 where
  pub org_id : ℕ
  pub property_id : ℕ
  pub bed_id : ℕ
  pub room_id : ℕ
  pub phone : ℕ
  pub full_name : String
  pub start_date : Date
  pub agreed_rent_paise : ℕ
  pub deposit_paise : ℕ
  pub cycle_anchor_day : ℕ
  pub notice_days : ℕ
  pub actor_id : ℕ

-- A bed with its room and its property.
pub record SeatableBed : Type 0 where
  pub id : ℕ
  pub room_id : ℕ
  pub property_id : ℕ
  pub org_id : ℕ
  pub status : BedStatus
  pub base_rent_paise : ℕ
  pub deposit_paise : ℕ
  pub rent_override_paise : Option ℕ

abbrev pub joined_bed : Bed → Option Room → Option Property → Option SeatableBed
joined_bed bed none _ = none
joined_bed bed (some _) none = none
joined_bed bed (some room) (some property) = some (record {
  id = bed.id;
  room_id = bed.room_id;
  property_id = bed.property_id;
  org_id = property.org_id;
  status = bed.status;
  base_rent_paise = room.base_rent_paise;
  deposit_paise = room.deposit_paise;
  rent_override_paise = bed.rent_override_paise;
})

abbrev pub is_tenancy_claim : AllocationKind → Bool
is_tenancy_claim tenancy_claim = true
is_tenancy_claim _ = false

-- The claim on the bed, before the booking and the tenancy exist.
abbrev pub seat_claim : SeatInput → ℕ → BedAllocation
seat_claim input id = record {
  id = id;
  bed_id = input.bed_id;
  property_id = input.property_id;
  start_date = input.start_date;
  end_date = none;
  kind = tenancy_claim;
  status = active;
  booking_id = none;
  tenancy_id = none;
  expires_at = none;
  released_at = none;
  release_reason = none;
}

-- `upsert` by phone: the user's id, and the users.
abbrev pub upserted : Prisma → SeatInput → ℕ → Option User → List User → ℕ × List User
upserted prisma input id none users = (
  id,
  prisma.create User
      (record {
        id = id;
        phone = input.phone;
        full_name = some input.full_name;
        status = unclaimed;
      })
      users,
)
upserted prisma input id (some u) users = (
  u.id,
  prisma.update_many User (λ v. v.phone == input.phone)
      (λ v. record v { full_name = some input.full_name }) users,
)

abbrev pub walk_in_booking : SeatInput → ℕ → ℕ → Booking
walk_in_booking input id tenant_user_id = record {
  id = id;
  org_id = input.org_id;
  property_id = input.property_id;
  room_id = input.room_id;
  bed_id = input.bed_id;
  tenant_user_id = tenant_user_id;
  source = offline;
  status = checked_in;
  move_in_date = input.start_date;
  agreed_rent_paise = input.agreed_rent_paise;
  agreed_deposit_paise = input.deposit_paise;
  payable_now_paise = 0;
  convenience_fee_paise = 0;
  notice_days = input.notice_days;
  idempotency_key = none;
  gateway_order_id = none;
  hold_expires_at = none;
  approval_expires_at = none;
  owner_responded_at = none;
  paid_at = none;
  cancelled_at = none;
  cancellation_reason = none;
  settlement_status = money_held;
  settled_at = none;
  released_paise = none;
  refunded_paise = none;
  settlement_error = none;
}

abbrev pub walk_in_tenancy : SeatInput → ℕ → ℕ → ℕ → Tenancy
walk_in_tenancy input id booking_id tenant_user_id = record {
  id = id;
  org_id = input.org_id;
  property_id = input.property_id;
  bed_id = input.bed_id;
  tenant_user_id = tenant_user_id;
  booking_id = some booking_id;
  start_date = input.start_date;
  end_date = none;
  agreed_rent_paise = input.agreed_rent_paise;
  deposit_paise = input.deposit_paise;
  cycle_anchor_day = some input.cycle_anchor_day;
  notice_days = input.notice_days;
  status = tenancy_active;
  notice_given_at = none;
  intended_vacate_date = none;
  actual_vacate_date = none;
}

abbrev pub turned_to :
    ℕ → Option TenancyStatus → TenancyStatus → ℕ → Option String → TenancyStatusHistory
turned_to tenancy_id from to actor_id reason = record {
  tenancy_id = tenancy_id;
  from_status = from;
  to_status = to;
  actor_id = some actor_id;
  reason = reason;
}

abbrev pub has_tenancy_id : ℕ → Tenancy → Bool
has_tenancy_id tenancy_id t = t.id == tenancy_id

abbrev pub noticed : Date → Date → Tenancy → Tenancy
noticed now vacate_date t = record t {
  status = notice_given;
  notice_given_at = some now;
  intended_vacate_date = some vacate_date;
  end_date = some vacate_date;
}

abbrev pub left_on : Date → Tenancy → Tenancy
left_on vacate_date t = record t {
  status = ended;
  end_date = some vacate_date;
  actual_vacate_date = some vacate_date;
}

-- The rows that notice closes, and that the check-out releases.
abbrev pub stays : ℕ → BedAllocation → Bool
stays tenancy_id a = is_id tenancy_id a.tenancy_id && is_active a.status && is_tenancy_claim a.kind

abbrev pub claims_of : ℕ → BedAllocation → Bool
claims_of tenancy_id a = is_id tenancy_id a.tenancy_id && is_active a.status

-- The exclusion constraint on the whole table.
unfoldable pub apart : List BedAllocation → Bool
apart [] = true
apart (a ∷ rows) = not (any (overlaps a) rows) && apart rows
