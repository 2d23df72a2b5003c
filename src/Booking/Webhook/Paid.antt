-- ===== src/Booking/Webhook/Paid.antt =====
-- `applyWebhook`: what it means that an event's outcome is `paid`.
use rookopg.Prelude.{
  ℕ, ◌+◌, ◌≡◌, refl, ◌∙◌, sym, ap, Bool, false, Option, some, none, List, arith, Bool-cases, inl,
  inr, if◌then◌else◌,
}
use rookopg.Errors.{ok, Result-cases}
use rookopg.Database.{Booking, pending_payment, pending_approval, confirmed, Db}
use rookopg.Database.Client.{Prisma, changed}
use rookopg.Booking.Repository.{
  mark_paid, record_event_once, mark_event_processed, has_id, paid_booking,
}
use rookopg.Booking.Confirm.{HasStatus, changed-HasStatus, mark_paid_bookings}
use rookopg.Booking.Service.{
  Settings, Drawn, VerifiedEvent, EventType, payment_captured, payment_failed_event, other, paid,
  apply_webhook, apply_fresh, apply_captured, apply_failed, booking_of_event, auto_confirms,
  auto_confirms?, id_of, paid_input, differs,
}
use rookopg.Booking.Webhook.{event_known, known_is_duplicate}

module _ (prisma : Prisma) (settings : Settings) where
  paid_captured :
      (drawn : Drawn) (event : VerifiedEvent) (b : Booking) (auto_confirm : Bool) (db : Db)
      → (apply_captured prisma settings drawn event b auto_confirm db).0 ≡ ok paid
      → (b.status ≡ pending_payment)
        × (differs event.amount_paise (b.payable_now_paise + b.convenience_fee_paise) ≡ false)
        × ((apply_captured prisma settings drawn event b auto_confirm db).1.bookings
            ≡ changed
                (has_id b.id)
                (paid_booking drawn.now (paid_input prisma settings drawn event b auto_confirm))
                db.bookings)
        × HasStatus b.id
            (if auto_confirm then confirmed else pending_approval)
            (apply_captured prisma settings drawn event b auto_confirm db).1.bookings
  unfolding apply_captured mark_event_processed paid_input
  paid_captured drawn event b auto_confirm db h =
      elim (Result-cases
        (mark_paid prisma drawn.now (paid_input prisma settings drawn event b auto_confirm) db)) [
          | inl (db', ran) ↦
              let input = paid_input prisma settings drawn event b auto_confirm in
              let rows = mark_paid_bookings prisma drawn.now input db ran in
              let after : (apply_captured prisma settings drawn event b auto_confirm db).1.bookings
                  ≡ changed (has_id b.id) (paid_booking drawn.now input) db.bookings =
                ground arith in
              (
                ground arith,
                ground arith,
                after,
                rw after (
                    changed-HasStatus b.id _ (paid_booking drawn.now input) db.bookings
                      (λ r. refl)),
              )
          | inr (e, threw) ↦ ground arith
        ]

  record_event_once_bookings :
      (event_id : ℕ) (booking_id : Option ℕ) (db : Db)
      → (record_event_once prisma event_id booking_id db).1.bookings ≡ db.bookings
  unfolding record_event_once
  record_event_once_bookings event_id booking_id db = ground arith

  -- What `paid` says of the booking that the event was matched with, and of the rows after it.
  abbrev pub Pays : Drawn → VerifiedEvent → Db → Db → Booking → Bool → Type 0
  Pays drawn event db db' b auto_confirm =
      (b.status ≡ pending_payment)
      × (differs event.amount_paise (b.payable_now_paise + b.convenience_fee_paise) ≡ false)
      × (db'.bookings
          ≡ changed (has_id b.id)
              (paid_booking drawn.now (paid_input prisma settings drawn event b auto_confirm))
              db.bookings)
      × HasStatus b.id (if auto_confirm then confirmed else pending_approval) db'.bookings

  paid_fresh :
      (drawn : Drawn) (event : VerifiedEvent) (booking : Option Booking) (auto_confirm : Bool)
      (type : EventType) (db : Db)
      → (apply_fresh prisma settings drawn event booking auto_confirm type db).0 ≡ ok paid
      → (type ≡ payment_captured)
        × (b : Booking) × (booking ≡ some b)
        × Pays drawn event db
            (apply_fresh prisma settings drawn event booking auto_confirm type db).1
            b
            auto_confirm
  unfolding apply_fresh apply_failed
  paid_fresh drawn event none auto_confirm type db h = ground arith
  paid_fresh drawn event (some b) auto_confirm payment_failed_event db h = ground arith
  paid_fresh drawn event (some b) auto_confirm other db h = ground arith
  paid_fresh drawn event (some b) auto_confirm payment_captured db h =
      (refl, b, refl, paid_captured drawn event b auto_confirm db h)

  applied_once :
      (drawn : Drawn) (event : VerifiedEvent) (db : Db)
      → event_known event.event_id db.payment_events ≡ false
      → apply_webhook prisma settings drawn event db
        ≡ apply_fresh prisma settings drawn event
            (booking_of_event prisma settings event db)
            (auto_confirms? prisma settings (booking_of_event prisma settings event db) db)
            event.type
            (record_event_once prisma event.event_id
              (id_of prisma settings (booking_of_event prisma settings event db))
              db).1
  unfolding apply_webhook record_event_once
  applied_once drawn event db h = ground arith

  -- A webhook reports a booking as paid only for a captured payment whose event was not known, whose
  -- order is the booking's, where the booking was waiting for payment and the amount, if given, is
  -- what it costs; and then that booking's row alone changes, and its status is CONFIRMED
  -- at a property that confirms automatically, and PENDING_APPROVAL at any other.
  pub apply_webhook-paid :
      (drawn : Drawn) (event : VerifiedEvent) (db : Db)
      → (apply_webhook prisma settings drawn event db).0 ≡ ok paid
      → (event_known event.event_id db.payment_events ≡ false)
        × (event.type ≡ payment_captured)
        × (b : Booking) × (booking_of_event prisma settings event db ≡ some b)
        × Pays drawn event db
            (apply_webhook prisma settings drawn event db).1
            b
            (auto_confirms prisma settings b db)
  unfolding paid_input
  apply_webhook-paid drawn event db h =
      let booking = booking_of_event prisma settings event db in
      let recorded =
        (record_event_once prisma event.event_id (id_of prisma settings booking) db).1 in
      let after : Booking → Bool → List Booking → List Booking = λ b auto.
        changed (has_id b.id)
          (paid_booking drawn.now (paid_input prisma settings drawn event b auto)) in
      elim (Bool-cases (event_known event.event_id db.payment_events)) [
        | inl known ↦
            let again = known_is_duplicate prisma settings drawn event db known in ground arith
        | inr new ↦
            let run = applied_once drawn event db new in
            let (captured, b, matched, pays) =
              paid_fresh drawn event booking (auto_confirms? prisma settings booking db) event.type
                recorded (sym (ap (λ r. r.0) run) ∙ h) in
            let kept =
              record_event_once_bookings event.event_id (id_of prisma settings booking) db in
            let flag = ap (λ o. auto_confirms? prisma settings o db) matched in
            let rows = ap (λ r. r.1.bookings) run ∙ pays.2 in
            let settled = rows ∙ ap (after b _) kept ∙ ap (λ auto. after b auto db.bookings) flag in
            (
              new,
              captured,
              b,
              matched,
              (
                pays.0,
                pays.1,
                settled,
                rw settled (
                    changed-HasStatus b.id _
                      (paid_booking drawn.now (
                        paid_input prisma settings drawn event b
                          (auto_confirms prisma settings b db)))
                      db.bookings (λ r. refl)),
              ),
            )
      ]
