-- ===== src/Booking/Checkout/Retry.antt =====
-- A checkout that succeeds, and the same request made again.
use Prim.Native.String.{String}
use rookopg.Prelude.{
  ℕ, ◌≡◌, refl, ap, true, Option, none, some, any, arith, Option-cases, inl, inr, All, or_else,
  ==_iff,
}
use mathlib.Core.Path.{subst}
use rookopg.Calendar.{Date}
use rookopg.Errors.{Result, ok, throw}
use rookopg.Iam.{AuthenticatedActor}
use rookopg.Database.{Booking, Db, is_id}
use rookopg.Database.Client.{Prisma, find_first-found}
use rookopg.Payments.{PaymentGateway}
use rookopg.Booking.Repository.{find_by_idempotency_key}
use rookopg.Booking.Checkout.{
  CheckoutSettings, CreateBookingDto, Checkout, Quote, create_booking, known_booking, new_booking,
  quote, fill_name, checkout_of,
}
use rookopg.Booking.Checkout.Steps.{IsGiven, IsOwned, IsSound, IsBooked, unkeyed-IsOwned}
use rookopg.Booking.Checkout.Booked.{book_each-Booked}

fill_name_rows :
    (prisma : Prisma) (user_id : ℕ) (name : Option String) (db : Db)
    → ((fill_name prisma user_id name db).bookings ≡ db.bookings)
      × ((fill_name prisma user_id name db).next_id ≡ db.next_id)
unfolding fill_name
fill_name_rows prisma user_id none db = (refl, refl)
fill_name_rows prisma user_id (some name) db = (refl, refl)

module _ (prisma : Prisma) (settings : CheckoutSettings) (gateway : PaymentGateway) where
  -- The key that a request goes by.
  abbrev pub key_of : ℕ → CreateBookingDto → ℕ
  key_of fresh_key dto = or_else dto.idempotency_key fresh_key

  abbrev created :
      Date
      → ℕ
      → AuthenticatedActor
      → CreateBookingDto
      → gateway.State
      → Db
      → (Result Checkout × Db) × gateway.State
  created now fresh_key actor dto g db =
      create_booking prisma settings gateway now fresh_key actor dto g db

  known_lem :
      (user_id key : ℕ) (b : Booking) {made : Checkout}
      → is_id key b.idempotency_key ≡ true
      → known_booking prisma settings gateway user_id b ≡ ok made
      → (made ≡ checkout_of b) × (b.tenant_user_id ≡ user_id)
  unfolding known_booking
  known_lem user_id key b keyed h = ground (arith, ==_iff b.tenant_user_id user_id)

  -- A booking is on record under the key, and it is the user's.
  abbrev IsOnRecord : ℕ → ℕ → Db → Type 0
  IsOnRecord key user_id db =
      (b : Booking) × (find_by_idempotency_key prisma key db ≡ some b)
      × (b.tenant_user_id ≡ user_id)

  on_record :
      (key user_id : ℕ) (db : Db)
      → IsSound key user_id db
      → any (λ b. is_id key b.idempotency_key) db.bookings ≡ true
      → IsOnRecord key user_id db
  unfolding find_by_idempotency_key
  on_record key user_id db h there =
      let (b, found, keyed) =
        find_first-found prisma (λ b. is_id key b.idempotency_key) db.bookings there in
      (
        b,
        found,
        prisma.find_first-All Booking (λ b. is_id key b.idempotency_key) (IsOwned key user_id)
            db.bookings b h.1 found keyed,
      )

  new_booking_lem :
      (now : Date) (user_id key : ℕ) (quoted : Result Quote) (g : gateway.State) (db : Db)
      {made : Checkout} {db' : Db}
      → IsSound key user_id db
      → (new_booking prisma settings gateway now user_id key quoted g db).0 ≡ (ok made, db')
      → IsBooked key user_id made × IsOnRecord key user_id db'
  unfolding new_booking
  new_booking_lem now user_id key (throw e) g db h ran = ground arith
  new_booking_lem now user_id key (ok q) g db {made} {db'} h ran =
      let (booked, sound, there) =
        book_each-Booked prisma settings gateway now user_id key q q.candidates g db h ran in
      (booked, on_record key user_id db' sound there)

  made_lem :
      (now : Date) (fresh_key : ℕ) (actor : AuthenticatedActor) (dto : CreateBookingDto)
      (g : gateway.State) (db : Db) {made : Checkout} {db' : Db}
      → All (IsGiven db.next_id) db.bookings
      → (created now fresh_key actor dto g db).0 ≡ (ok made, db')
      → IsBooked (key_of fresh_key dto) actor.user_id made
        × IsOnRecord (key_of fresh_key dto) actor.user_id db'
  unfolding create_booking find_by_idempotency_key
  made_lem now fresh_key actor dto g db {made} {db'} given h =
      let key = key_of fresh_key dto in
      let named = fill_name prisma actor.user_id dto.full_name db in
      let (rows, next) = fill_name_rows prisma actor.user_id dto.full_name db in
      elim (Option-cases (find_by_idempotency_key prisma key named)) [
        | inr (b, found) ↦
            let keyed =
              prisma.find_first-some Booking (λ b. is_id key b.idempotency_key) named.bookings b
                found in
            let ran : (known_booking prisma settings gateway actor.user_id b, named)
                ≡ (ok made, db') =
              (rw (found, create_booking) at h) in
            let (same, tenant) =
              known_lem actor.user_id key b keyed (ap (λ (r : Result Checkout × Db). r.0) ran) in
            (
              rw same (tenant, keyed, refl),
              (
                b,
                subst (λ d. find_by_idempotency_key prisma key d ≡ some b)
                    (ap (λ (r : Result Checkout × Db). r.1) ran) found,
                tenant,
              ),
            )
        | inl missing ↦
            let ran : (new_booking prisma settings gateway now actor.user_id key
                  (quote prisma now dto named).0 g named).0
                ≡ (ok made, db') =
              (rw (missing, create_booking) at h) in
            let unkeyed =
              prisma.find_first-none Booking (λ b. is_id key b.idempotency_key) named.bookings
                missing in
            new_booking_lem now actor.user_id key (quote prisma now dto named).0 g named
              (rw (rows, next) given, unkeyed-IsOwned key actor.user_id named.bookings unkeyed) ran
      ]

  -- Where every booking's id was given out, a checkout that succeeds returns a booking of the actor's
  -- under the request's key, and the order that it shows is the one on the booking's row.
  pub create_booking_lem :
      (now : Date) (fresh_key : ℕ) (actor : AuthenticatedActor) (dto : CreateBookingDto)
      (g : gateway.State) (db : Db) {made : Checkout} {db' : Db}
      → All (IsGiven db.next_id) db.bookings
      → (create_booking prisma settings gateway now fresh_key actor dto g db).0 ≡ (ok made, db')
      → (made.booking.tenant_user_id ≡ actor.user_id)
        × (is_id (key_of fresh_key dto) made.booking.idempotency_key ≡ true)
        × (made.booking.gateway_order_id ≡ made.order_id)
  create_booking_lem now fresh_key actor dto g db given h =
      (made_lem now fresh_key actor dto g db given h).0

  -- After a checkout that succeeded, another request of the same actor under the same key, at any time
  -- and whatever else it asks for, succeeds with a booking of the actor's, calls no payment provider,
  -- and at most fills in the actor's name.
  pub create_booking_twice :
      (now later fresh_key fresh_key' : ℕ) (actor : AuthenticatedActor)
      (dto dto' : CreateBookingDto) (g g' : gateway.State) (db : Db) {made : Checkout} {db' : Db}
      → All (IsGiven db.next_id) db.bookings
      → (create_booking prisma settings gateway now fresh_key actor dto g db).0 ≡ (ok made, db')
      → key_of fresh_key' dto' ≡ key_of fresh_key dto
      → (again : Checkout) × (create_booking prisma settings gateway later fresh_key' actor dto' g'
            db'
          ≡ ((ok again, fill_name prisma actor.user_id dto'.full_name db'), g'))
        × (again.booking.tenant_user_id ≡ actor.user_id)
  unfolding create_booking find_by_idempotency_key known_booking
  create_booking_twice now later fresh_key fresh_key' actor dto dto' g g' db {made} {db'} given h
        same =
      let (b, found, tenant) = (made_lem now fresh_key actor dto g db given h).1 in
      let (rows, _) = fill_name_rows prisma actor.user_id dto'.full_name db' in
      let found' : find_by_idempotency_key prisma (key_of fresh_key' dto')
            (fill_name prisma actor.user_id dto'.full_name db')
          ≡ some b =
        rw (same, rows) found in
      let mine = (==_iff b.tenant_user_id actor.user_id).1 tenant in
      (checkout_of b, rw (found', create_booking, mine) refl, tenant)
