-- ===== src/Database.antt =====
-- apps/backend/prisma/schema.prisma and the constraints of apps/backend/prisma/sql: the rows that
-- the booking and check-in repositories read and write, with the columns that they use. Ids, keys
-- and codes, which are only compared, are numbers. A new row takes its id from a supply of numbers not used before.
pub mod Client
pub mod Session
pub mod Keeps
pub mod Claims
pub mod Unique
mod Bookings
mod Money
mod People
mod Places
pub use Bookings.*
pub use Money.*
pub use People.*
pub use Places.*
use Prim.Native.String.{String}
use rookopg.Prelude.{
  ℕ, ◌+◌, Bool, true, false, ◌&&◌, Option, none, some, List, [], ◌∷◌, ◌==◌, ltb, any,
}
use rookopg.Prelude.Int.{ℤ}
use rookopg.Calendar.{Date}

pub record Db : Type 0 where
  pub next_id : ℕ
  pub allocations : List BedAllocation
  pub bookings : List Booking
  pub booking_history : List BookingStatusHistory
  pub tenancies : List Tenancy
  pub tenancy_history : List TenancyStatusHistory
  pub passes : List CheckinToken
  pub checkin_events : List CheckinEvent
  pub payments : List Payment
  pub payment_events : List PaymentEvent
  pub properties : List Property
  pub invoices : List Invoice
  pub payment_allocations : List PaymentAllocation
  pub users : List User
  pub organisations : List Organisation
  pub rooms : List Room
  pub beds : List Bed
  pub otp_challenges : List OtpChallenge
  pub auth_sessions : List AuthSession
  pub listings : List Listing
  pub org_memberships : List OrgMembership
  pub membership_properties : List OrgMembershipProperty

abbrev pub is_active : AllocationStatus → Bool
is_active active = true
is_active released = false

abbrev pub is_hold : AllocationKind → Bool
is_hold hold = true
is_hold _ = false

-- `column = id`, false where the column is null.
abbrev pub is_id : ℕ → Option ℕ → Bool
is_id k none = false
is_id k (some j) = j == k

-- `column <= now`, false where the column is null.
abbrev pub is_past : Date → Option Date → Bool
is_past now none = false
is_past now (some t) = ltb t (now + 1)

-- `daterange(a, b, '[)')` contains a day before `until`, or `until` is unbounded.
abbrev starts_before : Date → Option Date → Bool
starts_before start none = true
starts_before start (some until) = ltb start until

-- The constraint "bed_allocation_no_overlap": two ACTIVE rows of one bed whose ranges meet.
unfoldable pub overlaps : BedAllocation → BedAllocation → Bool
overlaps a b =
    is_active a.status
    && is_active b.status
    && (a.bed_id == b.bed_id)
    && starts_before a.start_date b.end_date
    && starts_before b.start_date a.end_date
