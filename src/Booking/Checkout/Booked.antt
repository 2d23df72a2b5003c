-- ===== src/Booking/Checkout/Booked.antt =====
-- What holds of the bookings while the candidates are tried, and of the one that is made.
use rookopg.Prelude.{
  ℕ, ◌+◌, ◌≡◌, refl, sym, ap, ◌∙◌, true, some, List, [], ◌∷◌, ◌==◌, any, if◌then◌else◌, arith,
  Bool-cases, inl, inr, All, All-imp, All-into, ==_iff, ==_refl,
}
use mathlib.Core.Path.{subst}
use rookopg.Calendar.{Date}
use rookopg.Errors.{Result, Result-cases, ok, throw}
use rookopg.Database.{Booking, Db, is_id}
use rookopg.Database.Client.{Prisma, changed}
use rookopg.Database.Keeps.{
  Keeps, transact-Keeps, pure-Keeps, reads-Keeps, require_some-Keeps, >>=-Keeps,
}
use rookopg.Payments.{PaymentGateway, GatewayOrder}
use rookopg.Booking.Repository.{hold_bed, held_booking, attach_order, find_by_id, has_id}
use rookopg.Booking.Checkout.{
  CheckoutSettings, CandidateBed, Quote, Checkout, with_order, try_bed, book_each, hold_input,
  lost_bed,
}
use rookopg.Booking.Checkout.Steps.{
  IsGiven, IsOwned, IsSound, IsBooked, ordered, any-changed, hold_bed_rows, attach_order_rows,
  with_order_lem, try_bed_ok,
}

module _ (prisma : Prisma) (settings : CheckoutSettings) (gateway : PaymentGateway) (now : Date)
    (user_id key : ℕ) (q : Quote) where
  hold_Sound :
      (c : CandidateBed) (db : Db) {id : ℕ} {held : Db}
      → IsSound key user_id db
      → hold_bed prisma now (hold_input prisma settings gateway now user_id key q c) db
        ≡ ok (id, held)
      → IsSound key user_id held
  hold_Sound c db {id} {held} h ran =
      let input = hold_input prisma settings gateway now user_id key q c in
      let (is_next, next, rows) = hold_bed_rows prisma now input db ran in
      rw rows (
        (
          omega arith,
          All-imp (IsGiven db.next_id) (IsGiven held.next_id) db.bookings
              (λ b k. omega (arith, k, next)) h.0,
        ),
        (λ keyed. refl, h.1),
      )

  attach_Sound :
      (id order_id : ℕ) (db : Db) {db' : Db}
      → IsSound key user_id db
      → attach_order prisma id order_id db ≡ ok db'
      → IsSound key user_id db'
  attach_Sound id order_id db {db'} h ran =
      let (rows, next) = attach_order_rows prisma id order_id db ran in
      rw (rows, next)
        (
          All-into (IsGiven db.next_id) (IsGiven db.next_id)
              (λ (b : Booking). if has_id id b then ordered order_id b else b) db.bookings
              (λ b k. ground arith) h.0,
          All-into (IsOwned key user_id) (IsOwned key user_id)
              (λ (b : Booking). if has_id id b then ordered order_id b else b) db.bookings
              (λ b k. elim (Bool-cases (has_id id b)) [
                | inl here ↦ rw here k
                | inr other ↦ rw other k
              ])
              h.1,
        )

  with_order-Sound :
      (id : ℕ) (answer : Result GatewayOrder)
      → Keeps (IsSound key user_id) (with_order prisma settings gateway id answer)
  unfolding with_order
  with_order-Sound id (throw e) = λ db h. h
  with_order-Sound id (ok order) =
      let attached =
        transact-Keeps (IsSound key user_id) (attach_order prisma id order.order_id)
          λ db db' h ran. attach_Sound id order.order_id db h ran in
      search (>>=-Keeps, attached, pure-Keeps, reads-Keeps, require_some-Keeps)

  try_bed-Sound :
      (c : CandidateBed) (g : gateway.State) (db : Db)
      → IsSound key user_id db
      → IsSound key user_id (try_bed prisma settings gateway now user_id key q c g db).0.1
  unfolding try_bed
  try_bed-Sound c g db h =
      elim (Result-cases
        (hold_bed prisma now (hold_input prisma settings gateway now user_id key q c) db)) [
          | inr (e, thrown) ↦ rw (thrown, try_bed) h
          | inl ((id, held), ran) ↦
              rw (ran, try_bed) (with_order-Sound id _ held (hold_Sound c db h ran))
        ]

  -- A row that has an id is the user's, with the key and the order.
  abbrev IsPlaced : ℕ → ℕ → Booking → Type 0
  IsPlaced id order_id b =
      b.id ≡ id
      → (b.tenant_user_id ≡ user_id)
        × (is_id key b.idempotency_key ≡ true)
        × (b.gateway_order_id ≡ some order_id)

  -- The row of a booking that was just held and given an order.
  booked_row :
      (c : CandidateBed) (id order_id next : ℕ) (rows : List Booking)
      → id ≡ next + 1
      → All (IsGiven next) rows
      → All (IsPlaced id order_id) (
          changed (has_id id) (ordered order_id) (
            held_booking (hold_input prisma settings gateway now user_id key q c) (next + 1)
            ∷ rows))
  booked_row c id order_id next rows is_next given =
      let new = ==_refl key in
      let here : (next + 1 == id) ≡ true = (==_iff (next + 1) id).1 (sym is_next) in
      rw here (
        (λ e. (refl, new, refl)),
        All-into (IsGiven next) (IsPlaced id order_id)
            (λ (b : Booking). if has_id id b then ordered order_id b else b) rows
            (λ b k. elim (Bool-cases (has_id id b)) [
              | inl same ↦
                  absurd (let equal = (==_iff b.id id).0 same in omega (arith, k, equal, is_next))
              | inr other ↦ rw other (λ e. absurd (omega (arith, k, e, is_next)))
            ])
            given,
      )

  try_bed-Booked :
      (c : CandidateBed) (g : gateway.State) (db : Db) {made : Checkout} {db' : Db}
      → IsSound key user_id db
      → (try_bed prisma settings gateway now user_id key q c g db).0 ≡ (ok made, db')
      → IsBooked key user_id made × (any (λ b. is_id key b.idempotency_key) db'.bookings ≡ true)
  unfolding find_by_id
  try_bed-Booked c g db {made} {db'} h ran =
      let (id, held, order, hold_ran, order_ran) =
        try_bed_ok prisma settings gateway now user_id key q c g db ran in
      let (attached, found, shown) =
        with_order_lem prisma settings gateway id order held order_ran in
      let (is_next, next, rows) =
        hold_bed_rows prisma now (hold_input prisma settings gateway now user_id key q c) db
          hold_ran in
      let (rows', _) = attach_order_rows prisma id order.order_id held attached in
      let booked = booked_row c id order.order_id db.next_id db.bookings is_next h.0 in
      let rest =
        subst
          (λ rs. All (IsPlaced id order.order_id) (changed (has_id id) (ordered order.order_id) rs))
          (sym rows) booked in
      let all = subst (All (IsPlaced id order.order_id)) (sym rows') rest in
      let same_id : made.booking.id ≡ id =
        (==_iff made.booking.id id).0
          (prisma.find_first-some Booking (has_id id) db'.bookings made.booking found) in
      let (tenant, keyed, order_shown) =
        prisma.find_first-All Booking (has_id id) (IsPlaced id order.order_id) db'.bookings
          made.booking all found same_id in
      let kept : any (λ (b : Booking). is_id key b.idempotency_key) db'.bookings
          ≡ any (λ (b : Booking). is_id key b.idempotency_key) held.bookings =
        (rw rows' (
          any-changed (has_id id) (λ b. is_id key b.idempotency_key) (ordered order.order_id)
            held.bookings (λ b. refl))) in
      let there : any (λ (b : Booking). is_id key b.idempotency_key) held.bookings ≡ true =
        (rw rows (rw (==_refl key) refl)) in
      ((tenant, keyed, order_shown ∙ sym shown), kept ∙ there)

  pub book_each-Booked :
      (cs : List CandidateBed) (g : gateway.State) (db : Db) {made : Checkout} {db' : Db}
      → IsSound key user_id db
      → (book_each prisma settings gateway now user_id key q cs g db).0 ≡ (ok made, db')
      → IsBooked key user_id made
        × IsSound key user_id db'
        × (any (λ b. is_id key b.idempotency_key) db'.bookings ≡ true)
  unfolding book_each
  book_each-Booked [] g db h ran = ground arith
  book_each-Booked (c ∷ cs) g db {made} {db'} h ran =
      let tried = try_bed prisma settings gateway now user_id key q c g db in
      let sound = try_bed-Sound c g db h in
      elim (Bool-cases (lost_bed prisma settings gateway tried.0.0)) [
        | inl lost ↦ book_each-Booked cs tried.1 tried.0.1 sound (rw (lost, book_each) at ran)
        | inr won ↦
            let same : tried.0 ≡ (ok made, db') = (rw (won, book_each) at ran) in
            let (booked, there) = try_bed-Booked c g db h same in
            (
              booked,
              subst (λ db1. IsSound key user_id db1) (ap (λ (r : Result Checkout × Db). r.1) same)
                  sound,
              there,
            )
      ]
