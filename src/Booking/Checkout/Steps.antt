-- ===== src/Booking/Checkout/Steps.antt =====
-- The steps of a checkout: the rows that each writes, and what it went through where it succeeds.
use rookopg.Prelude.{
  ℕ, ◌+◌, ◌≡◌, ◌≢◌, refl, ◌<◌, Bool, true, false, some, List, [], ◌∷◌, any, arith, Bool-cases,
  Option-cases, inl, inr, All,
}
use rookopg.Calendar.{Date}
use rookopg.Errors.{Result-cases, ok, throw, DomainError}
use rookopg.Database.{Booking, Db, is_id}
use rookopg.Database.Client.{Prisma, changed, update_ok}
use rookopg.Payments.{PaymentGateway, GatewayOrder}
use rookopg.Booking.Repository.{HoldInput, hold_bed, held_booking, attach_order, find_by_id, has_id}
use rookopg.Booking.Checkout.{
  CheckoutSettings, CandidateBed, Quote, Checkout, with_order, try_bed, hold_input, order_input,
  price_of,
}

-- A row's id has been given out.
abbrev pub IsGiven : ℕ → Booking → Type 0
IsGiven next_id b = b.id < next_id

-- Rows with a key are a user's.
abbrev pub IsOwned : ℕ → ℕ → Booking → Type 0
IsOwned key user_id b = is_id key b.idempotency_key ≡ true → b.tenant_user_id ≡ user_id

-- What holds before each candidate is tried.
abbrev pub IsSound : ℕ → ℕ → Db → Type 0
IsSound key user_id db =
    All (IsGiven db.next_id) db.bookings × All (IsOwned key user_id) db.bookings

-- The booking of a checkout is the user's, has the key, and has the order that is shown.
abbrev pub IsBooked : ℕ → ℕ → Checkout → Type 0
IsBooked key user_id c =
    (c.booking.tenant_user_id ≡ user_id)
    × (is_id key c.booking.idempotency_key ≡ true)
    × (c.booking.gateway_order_id ≡ c.order_id)

pub unkeyed-IsOwned :
    (key user_id : ℕ) (rows : List Booking)
    → any (λ b. is_id key b.idempotency_key) rows ≡ false
    → All (IsOwned key user_id) rows
unkeyed-IsOwned key user_id [] h = tt
unkeyed-IsOwned key user_id (b ∷ rows) h = elim (Bool-cases (is_id key b.idempotency_key)) [
  | inl here ↦ ground arith
  | inr other ↦ (λ keyed. ground arith, unkeyed-IsOwned key user_id rows (ground arith))
]

pub any-changed :
    (p q : Booking → Bool) (f : Booking → Booking) (rows : List Booking)
    → ((b : Booking) → q (f b) ≡ q b)
    → any q (changed p f rows) ≡ any q rows
any-changed p q f [] same = refl
any-changed p q f (b ∷ rows) same = ground (arith, any-changed p q f rows same, same b)

abbrev pub ordered : ℕ → Booking → Booking
ordered order_id b = record b { gateway_order_id = some order_id }

module _ (prisma : Prisma) where
  pub hold_bed_rows :
      (now : Date) (input : HoldInput) (db : Db) {id : ℕ} {db' : Db}
      → hold_bed prisma now input db ≡ ok (id, db')
      → (id ≡ db.next_id + 1)
        × (db'.next_id ≡ db.next_id + 2)
        × (db'.bookings ≡ held_booking input (db.next_id + 1) ∷ db.bookings)
  unfolding hold_bed
  hold_bed_rows now input db h =
      let new = prisma.create-eq Booking (held_booking input (db.next_id + 1)) db.bookings in
      ground arith

  pub attach_order_rows :
      (booking_id order_id : ℕ) (db : Db) {db' : Db}
      → attach_order prisma booking_id order_id db ≡ ok db'
      → (db'.bookings ≡ changed (has_id booking_id) (ordered order_id) db.bookings)
        × (db'.next_id ≡ db.next_id)
  unfolding attach_order
  attach_order_rows booking_id order_id db {db'} h =
      elim (Result-cases
        (prisma.update Booking (has_id booking_id) (ordered order_id) db.bookings)) [
          | inl (rows, made) ↦
              let same = update_ok prisma (has_id booking_id) (ordered order_id) db.bookings made in
              ground arith
          | inr (e, thrown) ↦ ground arith
        ]

  module _ (settings : CheckoutSettings) (gateway : PaymentGateway) where
    pub with_order_lem :
        (booking_id : ℕ) (order : GatewayOrder) (db : Db) {c : Checkout} {db' : Db}
        → with_order prisma settings gateway booking_id (ok order) db ≡ (ok c, db')
        → (attach_order prisma booking_id order.order_id db ≡ ok db')
          × (find_by_id prisma booking_id db' ≡ some c.booking)
          × (c.order_id ≡ some order.order_id)
    unfolding with_order
    with_order_lem booking_id order db h =
        elim (Result-cases (attach_order prisma booking_id order.order_id db)) [
          | inl (db1, attached) ↦ elim (Option-cases (find_by_id prisma booking_id db1)) [
            | inl missing ↦ ground arith
            | inr (b, found) ↦ ground arith
          ]
          | inr (e, thrown) ↦ ground arith
        ]

    pub with_order_thrown :
        (booking_id : ℕ) (e : DomainError) (db : Db) {c : Checkout} {db' : Db}
        → with_order prisma settings gateway booking_id (throw e) db ≢ (ok c, db')
    unfolding with_order
    with_order_thrown booking_id e db h = ground arith

    module _ (now : Date) (user_id key : ℕ) (q : Quote) where
      pub try_bed_ok :
          (c : CandidateBed) (g : gateway.State) (db : Db) {made : Checkout} {db' : Db}
          → (try_bed prisma settings gateway now user_id key q c g db).0 ≡ (ok made, db')
          → (id : ℕ) × (held : Db) × (order : GatewayOrder) × (hold_bed prisma now
                (hold_input prisma settings gateway now user_id key q c)
                db
              ≡ ok (id, held))
            × (with_order prisma settings gateway id (ok order) held ≡ (ok made, db'))
      unfolding try_bed
      try_bed_ok c g db {made} {db'} h =
          let input = hold_input prisma settings gateway now user_id key q c in
          elim (Result-cases (hold_bed prisma now input db)) [
            | inr (e, thrown) ↦ ground arith
            | inl ((id, held), ran) ↦
                let answer =
                  gateway.create_order
                    (order_input prisma settings gateway id (price_of prisma settings gateway q c))
                    g in
                let placed : with_order prisma settings gateway id answer.0 held ≡ (ok made, db') =
                  (rw (ran, try_bed) at h) in
                elim (Result-cases answer.0) [
                  | inl (order, answered) ↦ (id, held, order, ran, rw answered at placed)
                  | inr (e, refused) ↦ absurd (with_order_thrown id e held (rw refused at placed))
                ]
          ]
