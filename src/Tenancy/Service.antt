-- ===== src/Tenancy/Service.antt =====
-- tenancy.service.ts. A day that the caller writes is a date, or `none` where `new Date` cannot read it;
-- a name comes trimmed, and messages without the names that they quote.
use Prim.Native.String.{String}
use rookopg.Prelude.{
  ℕ, Bool, true, false, Option, none, some, List, [], ◌∷◌, ◌==◌, ltb, if◌then◌else◌, or_else,
}
use rookopg.Calendar.{Date, get_utc_date}
use rookopg.RentCycle.{start_of_day}
use rookopg.Errors.{
  Result, ok, throw, not_found, conflict, hide_forbidden, DomainError, bed_already_taken,
  invalid_phone,
}
use rookopg.Iam.{AuthenticatedActor, OrgRole, owner, manager, assert_property_access}
use rookopg.Database.{
  BedStatus, bed_active, bed_blocked, Tenancy, TenancyStatus, tenancy_active, ended,
}
use rookopg.Database.Client.{Prisma}
use rookopg.Database.Session.{
  Session, ◌>>=◌, ◌>>◌, pure, lift, reads, writes, require_s, require_some, transact, transact_with,
}
use rookopg.Billing.Service.{assert_access}
use rookopg.Phone.{normalise_phone}
use rookopg.Tenancy.Repository.{
  SeatInput, SeatableBed, find_bed_for_seating, release_expired_holds, seat_walk_in,
  list_for_property, find_tenancy, give_notice, check_out_repo,
}

abbrev pub tenancy_writers : List OrgRole
tenancy_writers = owner ∷ manager ∷ []

abbrev pub is_seatable : BedStatus → Bool
is_seatable bed_active = true
is_seatable _ = false

abbrev pub not_seatable : BedStatus → DomainError
not_seatable bed_blocked = conflict "That bed is out of service. Put it back in service first."
not_seatable _ = conflict "That bed is not available."

abbrev pub has_not_left : TenancyStatus → Bool
has_not_left ended = false
has_not_left _ = true

abbrev pub lives_there : TenancyStatus → Bool
lives_there tenancy_active = true
lives_there _ = false

unfoldable pub to_date : Option Date → Result Date
to_date none = throw (conflict "not a valid date")
to_date (some d) = ok d

-- `dto.vacateDate ? toDate(dto.vacateDate) : today()`
abbrev pub requested_date : Date → Option (Option Date) → Result Date
requested_date now none = ok (start_of_day now)
requested_date now (some given) = to_date given

pub record SeatTenantDto : Type 0 where
  pub bed_id : ℕ
  pub phone : List ℕ
  pub full_name : String
  pub start_date : Option Date
  pub agreed_rent_paise : Option ℕ
  pub deposit_paise : Option ℕ
  pub cycle_anchor_day : Option ℕ
  pub notice_days : Option ℕ

unfoldable pub seat_input :
    AuthenticatedActor → ℕ → SeatableBed → Date → ℕ → SeatTenantDto → SeatInput
seat_input actor property_id bed start_date phone dto = record {
  org_id = bed.org_id;
  property_id = property_id;
  bed_id = bed.id;
  room_id = bed.room_id;
  phone = phone;
  full_name = dto.full_name;
  start_date = start_date;
  agreed_rent_paise =
      or_else dto.agreed_rent_paise (or_else bed.rent_override_paise bed.base_rent_paise);
  deposit_paise = or_else dto.deposit_paise bed.deposit_paise;
  cycle_anchor_day = or_else dto.cycle_anchor_day (get_utc_date start_date);
  notice_days = or_else dto.notice_days 30;
  actor_id = actor.user_id;
}

-- The `catch` around the seating.
abbrev pub as_conflict : {A : Type 0} → Result A → Result A
as_conflict (ok a) = ok a
as_conflict (throw bed_already_taken) =
    throw (conflict "Bed has just been taken. Refresh and pick another.")
as_conflict (throw e) = throw e

-- `requested < tenancy.startDate ? tenancy.startDate : requested`
abbrev pub not_before : Date → Date → Date
not_before start_date requested = if ltb requested start_date then start_date else requested

module _ (prisma : Prisma) where
  unfoldable pub seat_tenant : Date → AuthenticatedActor → ℕ → SeatTenantDto → Session Tenancy
  seat_tenant now actor property_id dto = do
    assert_access prisma actor property_id tenancy_writers
    found ← reads (find_bed_for_seating prisma dto.bed_id)
    bed ← require_some found (not_found "Bed")
    require_s (bed.property_id == property_id) (not_found "Bed")
    require_s (is_seatable bed.status) (not_seatable bed.status)
    start_date ← lift (to_date dto.start_date)
    phone ← require_some (normalise_phone dto.phone) invalid_phone
    writes (release_expired_holds prisma now bed.id)
    transact_with λ db.
        as_conflict
          (seat_walk_in prisma now (seat_input actor property_id bed start_date phone dto) db)

  unfoldable pub list_current : AuthenticatedActor → ℕ → Session (List Tenancy)
  list_current actor property_id = do
    assert_access prisma actor property_id []
    reads (list_for_property prisma property_id has_not_left)

  unfoldable pub load_authorised : AuthenticatedActor → ℕ → List OrgRole → Session Tenancy
  load_authorised actor tenancy_id roles = do
    found ← reads (find_tenancy prisma tenancy_id)
    t ← require_some found (not_found "Tenant")
    lift (hide_forbidden "Tenant" (assert_property_access actor t.org_id t.property_id roles))
    pure t

  unfoldable pub give_tenant_notice :
      Date → AuthenticatedActor → ℕ → Option Date → Option String → Session (Unit {0})
  give_tenant_notice now actor tenancy_id vacate_on reason = do
    t ← load_authorised actor tenancy_id tenancy_writers
    require_s (lives_there t.status) (conflict "Notice has already been given for this tenant.")
    vacate_date ← lift (to_date vacate_on)
    require_s (ltb t.start_date vacate_date)
        (conflict "The leaving date must be after the move-in date.")
    transact (give_notice prisma now tenancy_id vacate_date actor.user_id reason)

  unfoldable pub check_tenant_out :
      Date → AuthenticatedActor → ℕ → Option (Option Date) → Option String → Session (Unit {0})
  check_tenant_out now actor tenancy_id vacate_on reason = do
    t ← load_authorised actor tenancy_id tenancy_writers
    require_s (has_not_left t.status) (conflict "This tenant has already checked out.")
    requested ← lift (requested_date now vacate_on)
    transact (
        check_out_repo prisma now tenancy_id (not_before t.start_date requested) actor.user_id
          reason)
