-- ===== src/Booking/Checkout/Kept.antt =====
-- A checkout keeps active claims on a bed from overlapping, whatever comes of it.
use rookopg.Prelude.{
  ℕ, Option, none, some, List, [], ◌∷◌, or_else, Bool-cases, Option-cases, inl, inr,
}
use Prim.Native.String.{String}
use rookopg.Calendar.{Date}
use rookopg.Errors.{Result, Result-cases, ok, throw}
use rookopg.Iam.{AuthenticatedActor}
use rookopg.Database.{Db}
use rookopg.Database.Client.{Prisma}
use rookopg.Database.Claims.{Disjoint}
use rookopg.Database.Keeps.{
  Keeps, transact-Keeps, pure-Keeps, reads-Keeps, require_some-Keeps, >>=-Keeps,
}
use rookopg.Payments.{PaymentGateway, GatewayOrder}
use rookopg.Booking.Repository.{hold_bed, attach_order, find_by_idempotency_key}
use rookopg.Booking.Claims.{hold_bed-Disjoint, attach_order-Disjoint}
use rookopg.Booking.Sessions.{Apart}
use rookopg.Booking.Checkout.{
  CheckoutSettings, CreateBookingDto, CandidateBed, Quote, with_order, try_bed, book_each,
  new_booking, create_booking, hold_input, fill_name, quote, lost_bed,
}

module _ (prisma : Prisma) (settings : CheckoutSettings) (gateway : PaymentGateway) where
  with_order-Apart :
      (id : ℕ) (answer : Result GatewayOrder)
      → Keeps Apart (with_order prisma settings gateway id answer)
  unfolding with_order
  with_order-Apart id (throw e) = λ db h. h
  with_order-Apart id (ok order) =
      let attached =
        transact-Keeps Apart (attach_order prisma id order.order_id)
          λ db db' h ran. attach_order-Disjoint prisma id order.order_id db h ran in
      search (>>=-Keeps, attached, pure-Keeps, reads-Keeps, require_some-Keeps)

  module _ (now : Date) (user_id key : ℕ) (q : Quote) where
    try_bed-Apart :
        (c : CandidateBed) (g : gateway.State) (db : Db)
        → Apart db
        → Apart (try_bed prisma settings gateway now user_id key q c g db).0.1
    unfolding try_bed
    try_bed-Apart c g db h =
        let input = hold_input prisma settings gateway now user_id key q c in
        elim (Result-cases (hold_bed prisma now input db)) [
          | inr (e, thrown) ↦ rw (thrown, try_bed) h
          | inl ((id, held), ran) ↦
              rw (ran, try_bed)
                (with_order-Apart id _ held (hold_bed-Disjoint prisma now input db h ran))
        ]

    book_each-Apart :
        (cs : List CandidateBed) (g : gateway.State) (db : Db)
        → Apart db
        → Apart (book_each prisma settings gateway now user_id key q cs g db).0.1
    unfolding book_each
    book_each-Apart [] g db h = h
    book_each-Apart (c ∷ cs) g db h =
        let tried = try_bed prisma settings gateway now user_id key q c g db in
        let kept = try_bed-Apart c g db h in
        elim (Bool-cases (lost_bed prisma settings gateway tried.0.0)) [
          | inl lost ↦ rw (lost, book_each) (book_each-Apart cs tried.1 tried.0.1 kept)
          | inr won ↦ rw (won, book_each) kept
        ]

  new_booking-Apart :
      (now : Date) (user_id key : ℕ) (quoted : Result Quote) (g : gateway.State) (db : Db)
      → Apart db
      → Apart (new_booking prisma settings gateway now user_id key quoted g db).0.1
  unfolding new_booking
  new_booking-Apart now user_id key (throw e) g db h = h
  new_booking-Apart now user_id key (ok q) g db h =
      book_each-Apart now user_id key q q.candidates g db h

  fill_name-Apart :
      (user_id : ℕ) (name : Option String) (db : Db)
      → Apart db
      → Apart (fill_name prisma user_id name db)
  unfolding fill_name
  fill_name-Apart user_id none db h = h
  fill_name-Apart user_id (some name) db h = h

  -- A checkout keeps active claims on a bed from overlapping, also where it throws and whatever the
  -- payment provider answers.
  create_booking-Disjoint :
      (now : Date) (fresh_key : ℕ) (actor : AuthenticatedActor) (dto : CreateBookingDto)
      (g : gateway.State) (db : Db)
      → Disjoint db.allocations
      → Disjoint
          (create_booking prisma settings gateway now fresh_key actor dto g db).0.1.allocations
  unfolding create_booking
  create_booking-Disjoint now fresh_key actor dto g db h =
      let named = fill_name prisma actor.user_id dto.full_name db in
      let key = or_else dto.idempotency_key fresh_key in
      let kept = fill_name-Apart actor.user_id dto.full_name db h in
      elim (Option-cases (find_by_idempotency_key prisma key named)) [
        | inr (b, found) ↦ rw (found, create_booking) kept
        | inl fresh ↦
            rw (fresh, create_booking)
              (new_booking-Apart now actor.user_id key (quote prisma now dto named).0 g named kept)
      ]
