-- ===== src/Database/Bookings.antt =====
-- apps/backend/prisma/schema.prisma: claims on beds, bookings, tenancies and move-in passes.
use Prim.Native.String.{String}
use rookopg.Prelude.{ℕ, Option}
use rookopg.Prelude.Int.{ℤ}
use rookopg.Calendar.{Date}

pub data AllocationKind : Type 0 where
  hold booking_claim tenancy_claim block : AllocationKind

pub data AllocationStatus : Type 0 where
  active released : AllocationStatus

pub data BookingSource : Type 0 where
  online offline : BookingSource

pub data BookingStatus : Type 0 where
  draft held pending_payment payment_failed pending_approval confirmed checked_in cancelled rejected
        expired no_show :
      BookingStatus

pub data TenancyStatus : Type 0 where
  tenancy_active notice_given ended : TenancyStatus

pub data SettlementStatus : Type 0 where
  money_held money_released money_refunded money_split settlement_failed : SettlementStatus

pub data CheckinKind : Type 0 where
  check_in check_out : CheckinKind

pub data CheckinMethod : Type 0 where
  qr manual : CheckinMethod

pub record BedAllocation : Type 0 where
  pub id : ℕ
  pub bed_id : ℕ
  pub property_id : ℕ
  pub start_date : Date
  pub end_date : Option Date
  pub kind : AllocationKind
  pub status : AllocationStatus
  pub booking_id : Option ℕ
  pub tenancy_id : Option ℕ
  pub expires_at : Option Date
  pub released_at : Option Date
  pub release_reason : Option String

pub record Booking : Type 0 where
  pub id : ℕ
  pub org_id : ℕ
  pub property_id : ℕ
  pub room_id : ℕ
  pub bed_id : ℕ
  pub tenant_user_id : ℕ
  pub source : BookingSource
  pub status : BookingStatus
  pub move_in_date : Date
  pub agreed_rent_paise : ℕ
  pub agreed_deposit_paise : ℕ
  pub payable_now_paise : ℕ
  pub convenience_fee_paise : ℕ
  pub notice_days : ℕ
  pub idempotency_key : Option ℕ
  pub gateway_order_id : Option ℕ
  pub hold_expires_at : Option Date
  pub approval_expires_at : Option Date
  pub owner_responded_at : Option Date
  pub paid_at : Option Date
  pub cancelled_at : Option Date
  pub cancellation_reason : Option String
  pub settlement_status : SettlementStatus
  pub settled_at : Option Date
  pub released_paise : Option ℤ
  pub refunded_paise : Option ℕ
  pub settlement_error : Option String

pub record BookingStatusHistory : Type 0 where
  pub booking_id : ℕ
  pub from_status : Option BookingStatus
  pub to_status : BookingStatus
  pub actor_id : Option ℕ
  pub reason : String

pub record Tenancy : Type 0 where
  pub id : ℕ
  pub org_id : ℕ
  pub property_id : ℕ
  pub bed_id : ℕ
  pub tenant_user_id : ℕ
  pub booking_id : Option ℕ
  pub start_date : Date
  pub end_date : Option Date
  pub agreed_rent_paise : ℕ
  pub deposit_paise : ℕ
  pub cycle_anchor_day : Option ℕ
  pub notice_days : ℕ
  pub status : TenancyStatus
  pub notice_given_at : Option Date
  pub intended_vacate_date : Option Date
  pub actual_vacate_date : Option Date

pub record TenancyStatusHistory : Type 0 where
  pub tenancy_id : ℕ
  pub from_status : Option TenancyStatus
  pub to_status : TenancyStatus
  pub actor_id : Option ℕ
  pub reason : Option String

pub record CheckinToken : Type 0 where
  pub id : ℕ
  pub booking_id : ℕ
  pub token : ℕ
  pub short_code : ℕ
  pub attempts : ℕ
  pub valid_from : Date
  pub valid_to : Date
  pub used_at : Option Date
  pub used_by_id : Option ℕ
  pub revoked_at : Option Date

pub record CheckinEvent : Type 0 where
  pub booking_id : Option ℕ
  pub tenancy_id : Option ℕ
  pub property_id : ℕ
  pub kind : CheckinKind
  pub method : CheckinMethod
  pub actor_id : ℕ
