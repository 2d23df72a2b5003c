-- ===== src/Booking/Checkout/Unlinked.antt =====
-- A checkout over Razorpay: no new booking gets an order, since the call names no linked account.
use rookopg.Prelude.{ℕ, ◌≡◌, refl, ◌∙◌, none, List, [], ◌∷◌, or_else, Bool-cases, inl, inr}
use rookopg.Calendar.{Date}
use rookopg.Errors.{Result, Result-cases, ok, throw, DomainError, conflict, gateway_error}
use rookopg.Iam.{AuthenticatedActor}
use rookopg.Database.{Db}
use rookopg.Database.Client.{Prisma}
use rookopg.Payments.Razorpay.{RazorpayApi, razorpay_gateway, create_order}
use rookopg.Booking.Repository.{hold_bed, find_by_idempotency_key}
use rookopg.Booking.Checkout.{
  CheckoutSettings, CreateBookingDto, CandidateBed, Quote, Checkout, with_order, try_bed, book_each,
  new_booking, create_booking, hold_input, fill_name, quote, lost_bed,
}

abbrev pub no_account : DomainError
no_account =
    gateway_error
      "Owner has no Razorpay linked account; refusing to collect money the platform would have to hold."

module _ (prisma : Prisma) (settings : CheckoutSettings) (api : RazorpayApi) where
  abbrev Outcome : Type 0
  Outcome = (Result Checkout × Db) × (razorpay_gateway api).State

  -- No success, and no call of the provider.
  abbrev IsRefused : (razorpay_gateway api).State → Outcome → Type 0
  IsRefused g r = ((e : DomainError) × (r.0.0 ≡ throw e)) × (r.1 ≡ g)

  module _ (now : Date) (user_id key : ℕ) (q : Quote) where
    -- A bed that was held stays so.
    try_bed_held :
        (c : CandidateBed) (g : (razorpay_gateway api).State) (db : Db) {id : ℕ} {held : Db}
        → hold_bed prisma now
            (hold_input prisma settings (razorpay_gateway api) now user_id key q c)
            db
          ≡ ok (id, held)
        → try_bed prisma settings (razorpay_gateway api) now user_id key q c g db
          ≡ ((throw no_account, held), g)
    unfolding try_bed with_order create_order
    try_bed_held c g db ran = rw (ran, try_bed) refl

    try_bed-IsRefused :
        (c : CandidateBed) (g : (razorpay_gateway api).State) (db : Db)
        → IsRefused g (try_bed prisma settings (razorpay_gateway api) now user_id key q c g db)
    unfolding try_bed
    try_bed-IsRefused c g db =
        elim (Result-cases (
          hold_bed prisma now
            (hold_input prisma settings (razorpay_gateway api) now user_id key q c) db)) [
              | inl ((id, held), ran) ↦ rw (try_bed_held c g db ran) ((no_account, refl), refl)
              | inr (e, thrown) ↦ rw (thrown, try_bed) ((e, refl), refl)
            ]

    book_each-IsRefused :
        (cs : List CandidateBed) (g : (razorpay_gateway api).State) (db : Db)
        → IsRefused g (book_each prisma settings (razorpay_gateway api) now user_id key q cs g db)
    unfolding book_each
    book_each-IsRefused [] g db =
        ((conflict "Those beds have just been taken. Try another room type.", refl), refl)
    book_each-IsRefused (c ∷ cs) g db =
        let tried = try_bed prisma settings (razorpay_gateway api) now user_id key q c g db in
        let (failed, idle) = try_bed-IsRefused c g db in
        elim (Bool-cases (lost_bed prisma settings (razorpay_gateway api) tried.0.0)) [
          | inl lost ↦
              let (rest, still) = book_each-IsRefused cs tried.1 tried.0.1 in
              rw (lost, book_each) (rest, still ∙ idle)
          | inr won ↦ rw (won, book_each) (failed, idle)
        ]

  new_booking-IsRefused :
      (now : Date) (user_id key : ℕ) (quoted : Result Quote) (g : (razorpay_gateway api).State)
      (db : Db)
      → IsRefused g (new_booking prisma settings (razorpay_gateway api) now user_id key quoted g db)
  unfolding new_booking
  new_booking-IsRefused now user_id key (throw e) g db = ((e, refl), refl)
  new_booking-IsRefused now user_id key (ok q) g db =
      book_each-IsRefused now user_id key q q.candidates g db

  -- Over Razorpay, a checkout under a key that no booking has never succeeds, and asks nothing of the
  -- provider.
  pub create_booking_unlinked :
      (now : Date) (fresh_key : ℕ) (actor : AuthenticatedActor) (dto : CreateBookingDto)
      (g : (razorpay_gateway api).State) (db : Db)
      → find_by_idempotency_key prisma
          (or_else dto.idempotency_key fresh_key)
          (fill_name prisma actor.user_id dto.full_name db)
        ≡ none
      → ((e : DomainError) × ((create_booking prisma settings
              (razorpay_gateway api)
              now
              fresh_key
              actor
              dto
              g
              db).0.0
            ≡ throw e))
        × ((create_booking prisma settings (razorpay_gateway api) now fresh_key actor dto g db).1
            ≡ g)
  unfolding create_booking
  create_booking_unlinked now fresh_key actor dto g db fresh =
      let named = fill_name prisma actor.user_id dto.full_name db in
      rw (fresh, create_booking)
        (new_booking-IsRefused now actor.user_id (or_else dto.idempotency_key fresh_key)
          (quote prisma now dto named).0 g named)
