-- ===== src/Booking/Checkout.antt =====
-- createBooking of booking.service.ts, with candidateBeds of booking.repository.ts and findBySlug of
-- search.repository.ts. `now` and a fresh key are drawn outside; a move-in day that cannot be read is
-- `none`, a name comes trimmed and cut, or is `none` if empty. What the order's notes and the answer only
-- display is left out.
pub mod Candidates
pub mod Steps
pub mod Booked
pub mod Retry
pub mod Unlinked
pub mod Kept
use Prim.Native.String.{String}
use rookopg.Prelude.{
  ℕ, ◌+◌, ◌*◌, Bool, true, false, not, ◌&&◌, Option, none, some, List, [], ◌∷◌, ◌++◌, ◌==◌, ltb,
  any, if◌then◌else◌, is_none, or_else, map,
}
use rookopg.Prelude.Int.{pos}
use rookopg.Calendar.{Date}
use rookopg.RentCycle.{start_of_day}
use rookopg.Errors.{
  Result, ok, throw, DomainError, not_found, conflict, forbidden, bed_already_taken, record_missing,
}
use rookopg.BedLabels.{SharingType, single, double, triple, quad, dormitory}
use rookopg.Iam.{AuthenticatedActor, non_empty}
use rookopg.Database.{
  Property, ListingStatus, published, Room, RoomStatus, room_active, Bed, BedStatus, bed_active,
  BedAllocation, Organisation, User, Booking, Db, is_active, is_id,
}
use rookopg.Database.Client.{Prisma}
use rookopg.Database.Session.{
  Session, ◌>>=◌, ◌>>◌, pure, fail, reads, transact, require_s, require_some,
}
use rookopg.Pricing.{PriceBreakdown, price_booking, commission_applies}
use rookopg.Payments.{PaymentGateway, CreateOrderInput, GatewayOrder}
use rookopg.Booking.Repository.{
  HoldInput, hold_bed, attach_order, find_by_id, find_by_idempotency_key,
}

pub record CheckoutSettings : Type 0 where
  pub hold_minutes : ℕ
  pub commission_bps : ℕ
  pub convenience_fee_paise : ℕ

pub record CreateBookingDto : Type 0 where
  pub slug : ℕ
  pub sharing_type : SharingType
  pub move_in_date : Option Date
  pub full_name : Option String
  pub idempotency_key : Option ℕ

pub record CandidateBed : Type 0 where
  pub bed_id : ℕ
  pub room_id : ℕ
  pub rent_paise : ℕ
  pub deposit_paise : ℕ

-- An order's id is `none` where the booking has none, which the caller sees as ''.
pub record Checkout : Type 0 where
  pub booking : Booking
  pub order_id : Option ℕ
  pub amount_paise : ℕ

-- What the new booking is made from, once it is known to be possible.
pub record Quote : Type 0 where
  pub property : Property
  pub move_in_date : Date
  pub candidates : List CandidateBed
  pub chargeable : Bool

abbrev pub is_published : ListingStatus → Bool
is_published published = true
is_published _ = false

abbrev pub is_room_active : RoomStatus → Bool
is_room_active room_active = true
is_room_active _ = false

abbrev pub is_bed_active : BedStatus → Bool
is_bed_active bed_active = true
is_bed_active _ = false

abbrev pub same_sharing : SharingType → SharingType → Bool
same_sharing single single = true
same_sharing double double = true
same_sharing triple triple = true
same_sharing quad quad = true
same_sharing dormitory dormitory = true
same_sharing _ _ = false

-- `{ endDate: null }` or `{ endDate: { gt: fromDate } }`
abbrev pub ends_after : Date → Option Date → Bool
ends_after from none = true
ends_after from (some until) = ltb from until

abbrev pub claims_from : Date → ℕ → BedAllocation → Bool
claims_from from bed_id a = (a.bed_id == bed_id) && is_active a.status && ends_after from a.end_date

-- A name that is null or ''.
abbrev pub is_nameless : Option String → Bool
is_nameless none = true
is_nameless (some String.[]) = true
is_nameless (some (String.◌∷◌ c s)) = false

abbrev pub is_taken : DomainError → Bool
is_taken bed_already_taken = true
is_taken _ = false

abbrev pub is_candidate_room : ℕ → SharingType → Room → Bool
is_candidate_room property_id sharing_type r =
    (r.property_id == property_id)
    && is_none r.deleted_at
    && is_room_active r.status
    && same_sharing r.sharing_type sharing_type

abbrev pub is_candidate_bed : Date → Db → ℕ → Bed → Bool
is_candidate_bed from db room_id b =
    (b.room_id == room_id)
    && is_none b.deleted_at
    && is_bed_active b.status
    && not (any (claims_from from b.id) db.allocations)

abbrev pub candidate : Room → Bed → CandidateBed
candidate r b = record {
  bed_id = b.id;
  room_id = r.id;
  rent_paise = or_else b.rent_override_paise r.base_rent_paise;
  deposit_paise = r.deposit_paise;
}

abbrev pub checkout_of : Booking → Checkout
checkout_of b = record {
  booking = b;
  order_id = b.gateway_order_id;
  amount_paise = b.payable_now_paise + b.convenience_fee_paise;
}

module _ (prisma : Prisma) where
  unfoldable pub find_by_slug : ℕ → Db → Option Property
  find_by_slug slug db =
      prisma.find_first Property
        (λ p.
          is_none p.deleted_at
          && any (λ l. (l.property_id == p.id) && is_id slug l.slug && is_published l.status)
              db.listings)
        db.properties

  -- `rooms.flatMap(…)`
  unfoldable pub beds_of : Date → Db → List Room → List CandidateBed
  beds_of from db [] = []
  beds_of from db (r ∷ rooms) =
      map (candidate r) (prisma.find_many Bed (is_candidate_bed from db r.id) db.beds)
      ++ beds_of from db rooms

  unfoldable pub candidate_beds : ℕ → SharingType → Date → Db → List CandidateBed
  candidate_beds property_id sharing_type from db = beds_of from db (
      prisma.find_ordered Room (λ r. r.base_rent_paise) (is_candidate_room property_id sharing_type)
        db.rooms)

  -- The name is filled in only where there is none.
  unfoldable pub fill_name : ℕ → Option String → Db → Db
  fill_name user_id none db = db
  fill_name user_id (some name) db = record db {
    users =
        prisma.update_many User (λ u. (u.id == user_id) && is_nameless u.full_name)
          (λ u. record u { full_name = some name }) db.users;
  }

  -- `createBooking`, from the listing to the commission: it only reads.
  unfoldable pub quote : Date → CreateBookingDto → Session Quote
  quote now dto = do
    found ← reads (find_by_slug dto.slug)
    property ← require_some found (not_found "Listing")
    move_in_date ← require_some dto.move_in_date (conflict "not a valid date")
    require_s (not (ltb move_in_date (start_of_day now)))
        (conflict "Choose a move-in date from today onwards.")
    candidates ← reads (candidate_beds property.id dto.sharing_type move_in_date)
    require_s (non_empty candidates)
        (conflict "No beds of that type are free from your move-in date.")
    org ←
        reads (λ db. prisma.find_first Organisation (λ o. o.id == property.org_id) db.organisations)
    organisation ← require_some org record_missing
    pure (record {
      property = property;
      move_in_date = move_in_date;
      candidates = candidates;
      chargeable =
          commission_applies organisation.free_period_starts_at organisation.free_period_months now;
    })

  module _ (settings : CheckoutSettings) (gateway : PaymentGateway) where
    abbrev pub price_of : Quote → CandidateBed → PriceBreakdown
    price_of q c = price_booking (record {
      monthly_rent_paise = pos c.rent_paise;
      deposit_paise = pos c.deposit_paise;
      commission_bps = settings.commission_bps;
      convenience_fee_paise = pos settings.convenience_fee_paise;
      commission_applies = q.chargeable;
    })

    abbrev pub hold_input : Date → ℕ → ℕ → Quote → CandidateBed → HoldInput
    hold_input now user_id key q c =
        let price = price_of q c in
        record {
          org_id = q.property.org_id;
          property_id = q.property.id;
          room_id = c.room_id;
          bed_id = c.bed_id;
          tenant_user_id = user_id;
          move_in_date = q.move_in_date;
          hold_expires_at = now + settings.hold_minutes * 60000;
          rent_paise = price.rent_paise;
          deposit_paise = price.deposit_paise;
          payable_now_paise = price.rent_paise + price.deposit_paise;
          convenience_fee_paise = price.convenience_fee_paise;
          idempotency_key = key;
        }

    -- The call names no linked account of the owner's.
    abbrev pub order_input : ℕ → PriceBreakdown → CreateOrderInput
    order_input booking_id price = record {
      reference = booking_id;
      amount_paise = price.total_payable_paise;
      owner_share_paise = price.owner_share_paise;
      platform_fee_paise = price.platform_fee_paise;
      owner_account_id = none;
    }

    -- After the provider has answered.
    unfoldable pub with_order : ℕ → Result GatewayOrder → Session Checkout
    with_order booking_id (throw e) = fail e
    with_order booking_id (ok order) = do
      transact (attach_order prisma booking_id order.order_id)
      found ← reads (find_by_id prisma booking_id)
      booking ← require_some found (conflict "Booking could not be created.")
      pure (record {
        booking = booking;
        order_id = some order.order_id;
        amount_paise = order.amount_paise;
      })

    -- The `try` block, for one candidate.
    unfoldable pub try_bed :
        Date
        → ℕ
        → ℕ
        → Quote
        → CandidateBed
        → gateway.State
        → Db
        → (Result Checkout × Db) × gateway.State
    try_bed now user_id key q c g db =
        elim (hold_bed prisma now (hold_input now user_id key q c) db) [
          | throw e ↦ ((throw e, db), g)
          | ok (booking_id, held) ↦
              (let (order, g') = gateway.create_order (order_input booking_id (price_of q c)) g in
                (with_order booking_id order held, g'))
        ]

    abbrev pub lost_bed : Result Checkout → Bool
    lost_bed (ok c) = false
    lost_bed (throw e) = is_taken e

    -- The loop over the candidates: a bed that is taken leads to the next.
    unfoldable pub book_each :
        Date
        → ℕ
        → ℕ
        → Quote
        → List CandidateBed
        → gateway.State
        → Db
        → (Result Checkout × Db) × gateway.State
    book_each now user_id key q [] g db =
        ((throw (conflict "Those beds have just been taken. Try another room type."), db), g)
    book_each now user_id key q (c ∷ cs) g db =
        let ((r, db'), g') = try_bed now user_id key q c g db in
        elim (lost_bed r) [ true ↦ book_each now user_id key q cs g' db' | false ↦ ((r, db'), g') ]

    unfoldable pub new_booking :
        Date → ℕ → ℕ → Result Quote → gateway.State → Db → (Result Checkout × Db) × gateway.State
    new_booking now user_id key (throw e) g db = ((throw e, db), g)
    new_booking now user_id key (ok q) g db = book_each now user_id key q q.candidates g db

    -- The answer to a request whose key is known.
    unfoldable pub known_booking : ℕ → Booking → Result Checkout
    known_booking user_id b =
        if b.tenant_user_id == user_id then ok (checkout_of b) else throw forbidden

    unfoldable pub create_booking :
        Date
        → ℕ
        → AuthenticatedActor
        → CreateBookingDto
        → gateway.State
        → Db
        → (Result Checkout × Db) × gateway.State
    create_booking now fresh_key actor dto g db =
        let key = or_else dto.idempotency_key fresh_key in
        let named = fill_name actor.user_id dto.full_name db in
        elim (find_by_idempotency_key prisma key named) [
          | some b ↦ ((known_booking actor.user_id b, named), g)
          | none ↦ new_booking now actor.user_id key (quote now dto named).0 g named
        ]
