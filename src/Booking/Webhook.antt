-- ===== src/Booking/Webhook.antt =====
-- `applyWebhook`: an event is applied once.
pub mod Paid
use Prim.Native.String.{String}
use rookopg.Prelude.{
  ℕ, ◌+◌, ◌≡◌, refl, ◌∙◌, sym, ap, Bool, true, false, Option, some, none, List, [], ◌∷◌, any, arith,
  ◌==◌, ==_refl, Bool-cases, inl, inr,
}
use rookopg.Calendar.{Date}
use rookopg.Errors.{ok, Result-cases}
use rookopg.Database.{Booking, BookingStatus, PaymentEvent, pending_payment, Db}
use rookopg.Database.Client.{Prisma, changed}
use rookopg.Database.Session.{writes, transact}
use rookopg.Database.Keeps.{Keeps, transact-Keeps, pure-Keeps, if-Keeps, >>=-Keeps}
use rookopg.Booking.Repository.{
  PaidInput, mark_paid, record_capture, on_confirmed, confirm_booking, release_booking,
  record_event_once, mark_event_processed, received_event, has_id, paid_booking,
}
use rookopg.Booking.Confirm.{mark_paid_bookings}
use rookopg.Booking.Service.{
  Settings, Drawn, VerifiedEvent, EventType, payment_captured, payment_failed_event, other,
  duplicate, paid, apply_webhook, apply_fresh, apply_captured, apply_failed, booking_of_event,
  auto_confirms, auto_confirms?, id_of, paid_input, differs,
}

abbrev pub event_known : ℕ → List PaymentEvent → Bool
event_known event_id = any λ e. e.gateway_event_id == event_id

processed_known :
    (event_id k : ℕ) (f : PaymentEvent → PaymentEvent) (rows : List PaymentEvent)
    → ((e : PaymentEvent) → (f e).gateway_event_id ≡ e.gateway_event_id)
    → event_known event_id rows ≡ true
    → event_known event_id (changed (λ e. e.gateway_event_id == k) f rows) ≡ true
processed_known event_id k f [] keeps h = h
processed_known event_id k f (e ∷ rows) keeps h =
    elim (Bool-cases (e.gateway_event_id == event_id)) [
      | inl here ↦ ground (arith, keeps e)
      | inr there ↦ ground (arith, keeps e, processed_known event_id k f rows keeps)
    ]

module _ (prisma : Prisma) where
  mark_event_processed_known :
      (now : Date) (event_id k : ℕ) (result : String) (db : Db)
      → event_known event_id db.payment_events ≡ true
      → event_known event_id (mark_event_processed prisma now k result db).payment_events ≡ true
  unfolding mark_event_processed
  mark_event_processed_known now event_id k result db h =
      rw
        (prisma.update_many-eq PaymentEvent (λ e. e.gateway_event_id == k)
          (λ e. record e { processed_at = some now; processing_result = some result })
          db.payment_events)
        (processed_known event_id k _ db.payment_events (λ e. refl) h)

  mark_paid_events :
      (now : Date) (input : PaidInput) (db : Db) {db' : Db}
      → mark_paid prisma now input db ≡ ok db'
      → db'.payment_events ≡ db.payment_events
  unfolding mark_paid record_capture on_confirmed confirm_booking
  mark_paid_events now input db h = ground arith

  release_booking_events :
      (now : Date) (booking_id : ℕ) (from to : BookingStatus) (reason : String) (actor : Option ℕ)
      (db : Db) {db' : Db}
      → release_booking prisma now booking_id from to reason actor db ≡ ok db'
      → db'.payment_events ≡ db.payment_events
  unfolding release_booking
  release_booking_events now booking_id from to reason actor db h = ground arith

  record_event_once_known :
      (event_id : ℕ) (booking_id : Option ℕ) (db : Db)
      → event_known event_id (record_event_once prisma event_id booking_id db).1.payment_events
        ≡ true
  unfolding record_event_once
  record_event_once_known event_id booking_id db =
      elim (Bool-cases (event_known event_id db.payment_events)) [
        | inl there ↦ ground arith
        | inr absent ↦
            let rows =
              prisma.create-eq PaymentEvent (received_event event_id booking_id)
                db.payment_events in
            ground (arith, ==_refl event_id)
      ]

module _ (prisma : Prisma) (settings : Settings) (event_id : ℕ) where
  abbrev Known : Db → Type 0
  Known db = event_known event_id db.payment_events ≡ true

  marks-Known :
      (now : Date) (k : ℕ) (result : String)
      → Keeps Known (writes (mark_event_processed prisma now k result))
  marks-Known now k result db h = mark_event_processed_known prisma now event_id k result db h

  paid-Known :
      (now : Date) (input : PaidInput) → Keeps Known (transact (mark_paid prisma now input))
  paid-Known now input =
      transact-Keeps Known (mark_paid prisma now input)
        λ db db' h ran. rw (mark_paid_events prisma now input db ran) h

  released-Known :
      (now : Date) (booking_id : ℕ) (from to : BookingStatus) (reason : String) (actor : Option ℕ)
      → Keeps Known (transact (release_booking prisma now booking_id from to reason actor))
  released-Known now booking_id from to reason actor =
      transact-Keeps Known (release_booking prisma now booking_id from to reason actor)
        λ db db' h ran.
          rw (release_booking_events prisma now booking_id from to reason actor db ran) h

  ruleset known_rules = (>>=-Keeps, if-Keeps, pure-Keeps, marks-Known, paid-Known, released-Known)

  apply_failed-Known :
      (drawn : Drawn) (event : VerifiedEvent) (b : Booking)
      → Keeps Known (apply_failed prisma settings drawn event b)
  unfolding apply_failed
  apply_failed-Known drawn event b = search known_rules

  apply_captured-Known :
      (drawn : Drawn) (event : VerifiedEvent) (b : Booking) (auto_confirm : Bool)
      → Keeps Known (apply_captured prisma settings drawn event b auto_confirm)
  unfolding apply_captured
  apply_captured-Known drawn event b auto_confirm = search known_rules

  apply_fresh-Known :
      (drawn : Drawn) (event : VerifiedEvent) (booking : Option Booking) (auto_confirm : Bool)
      (type : EventType)
      → Keeps Known (apply_fresh prisma settings drawn event booking auto_confirm type)
  unfolding apply_fresh
  apply_fresh-Known drawn event none auto_confirm type = search known_rules
  apply_fresh-Known drawn event (some b) auto_confirm payment_failed_event =
      apply_failed-Known drawn event b
  apply_fresh-Known drawn event (some b) auto_confirm other = search known_rules
  apply_fresh-Known drawn event (some b) auto_confirm payment_captured =
      apply_captured-Known drawn event b auto_confirm

module _ (prisma : Prisma) (settings : Settings) where
  apply_webhook_known :
      (drawn : Drawn) (event : VerifiedEvent) (db : Db)
      → event_known event.event_id (apply_webhook prisma settings drawn event db).1.payment_events
        ≡ true
  unfolding apply_webhook
  apply_webhook_known drawn event db =
      let booking = booking_of_event prisma settings event db in
      let recorded = record_event_once prisma event.event_id (id_of prisma settings booking) db in
      let known =
        record_event_once_known prisma event.event_id (id_of prisma settings booking) db in
      let type = event.type in
      let fresh =
        apply_fresh-Known prisma settings event.event_id drawn event booking
          (auto_confirms? prisma settings booking db) type recorded.1 known in
      elim (Bool-cases recorded.0) [ inl new ↦ ground arith | inr old ↦ ground arith ]

  pub known_is_duplicate :
      (drawn : Drawn) (event : VerifiedEvent) (db : Db)
      → event_known event.event_id db.payment_events ≡ true
      → apply_webhook prisma settings drawn event db ≡ (ok duplicate, db)
  unfolding apply_webhook record_event_once
  known_is_duplicate drawn event db h = ground arith

  -- Whatever came of a webhook's event, errors included, another delivery of an event with the same
  -- id is answered as a duplicate and changes nothing.
  pub apply_webhook_again :
      (drawn later : Drawn) (event again : VerifiedEvent) (db : Db)
      → again.event_id ≡ event.event_id
      → apply_webhook prisma settings later again (apply_webhook prisma settings drawn event db).1
        ≡ (ok duplicate, (apply_webhook prisma settings drawn event db).1)
  apply_webhook_again drawn later event again db same =
      known_is_duplicate later again (apply_webhook prisma settings drawn event db).1
        (rw same (apply_webhook_known drawn event db))
