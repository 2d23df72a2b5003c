-- ===== src/Database/Places.antt =====
-- apps/backend/prisma/schema.prisma: organisations, properties and their rooms and beds. A room's or
-- bed's code is the list of its character codes.
use Prim.Native.String.{String}
use rookopg.Prelude.{ℕ, Bool, Option, List}
use rookopg.Calendar.{Date}
use rookopg.BedLabels.{SharingType}

pub data SaleMode : Type 0 where
  per_bed whole_room : SaleMode

pub data RoomGender : Type 0 where
  men women anyone : RoomGender

pub data RoomStatus : Type 0 where
  room_active room_inactive : RoomStatus

pub data BedStatus : Type 0 where
  bed_active bed_inactive bed_blocked : BedStatus

pub data ListingStatus : Type 0 where
  listing_draft pending_review published listing_rejected unlisted listing_suspended : ListingStatus

pub record Organisation : Type 0 where
  pub id : ℕ
  pub name : String
  pub legal_name : Option String
  pub free_period_months : ℕ
  pub free_period_starts_at : Option Date
  pub created_at : Date
  pub deleted_at : Option Date

pub record Property : Type 0 where
  pub id : ℕ
  pub org_id : ℕ
  pub auto_confirm_bookings : Bool
  pub checkin_code_failures : ℕ
  pub checkin_code_locked_until : Option Date
  pub deleted_at : Option Date

pub record Listing : Type 0 where
  pub property_id : ℕ
  pub status : ListingStatus
  pub slug : Option ℕ

pub record Room : Type 0 where
  pub id : ℕ
  pub property_id : ℕ
  pub org_id : ℕ
  pub code : List ℕ
  pub floor : Option ℕ
  pub sharing_type : SharingType
  pub sharing_capacity : ℕ
  pub sale_mode : SaleMode
  pub gender : RoomGender
  pub has_ac : Bool
  pub has_attached_bath : Bool
  pub has_balcony : Bool
  pub base_rent_paise : ℕ
  pub deposit_paise : ℕ
  pub status : RoomStatus
  pub deleted_at : Option Date

pub record Bed : Type 0 where
  pub id : ℕ
  pub room_id : ℕ
  pub property_id : ℕ
  pub code : List ℕ
  pub status : BedStatus
  pub rent_override_paise : Option ℕ
  pub deleted_at : Option Date
