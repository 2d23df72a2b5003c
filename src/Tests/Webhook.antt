-- ===== src/Tests/Webhook.antt =====
-- The webhook theorems at a sample event, and a booking cancelled after it was confirmed.
use rookopg.Prelude.{◌≡◌, refl, false, some}
use rookopg.Errors.{ok}
use rookopg.Database.{Db, Booking}
use rookopg.Booking.Repository.{
  mark_paid, record_capture, on_confirmed, confirm_booking, find_by_id, record_event_once,
  mark_event_processed, find_by_order_id,
}
use rookopg.Booking.Service.{
  payment_captured, paid, duplicate, apply_webhook, apply_fresh, apply_captured, paid_input,
  auto_confirms, new_pass, booking_of_event,
}
use rookopg.Booking.Webhook.{apply_webhook_again, event_known}
use rookopg.Booking.Webhook.Paid.{apply_webhook-paid, Pays}
use rookopg.Tests.ListClient.{list_prisma}
use rookopg.Tests.Samples.{held_db, settings, drawn, event}

abbrev paid_db : Db
paid_db = (apply_webhook list_prisma settings drawn event held_db).1

apply_webhook_again_example :
    apply_webhook list_prisma settings drawn event paid_db ≡ (ok duplicate, paid_db)
apply_webhook_again_example =
    apply_webhook_again list_prisma settings drawn drawn event event held_db refl

was_paid : (apply_webhook list_prisma settings drawn event held_db).0 ≡ ok paid
unfolding apply_webhook apply_fresh apply_captured paid_input auto_confirms new_pass
    find_by_order_id record_event_once mark_event_processed mark_paid record_capture on_confirmed
    confirm_booking find_by_id
was_paid = refl

apply_webhook-paid_example :
    (event_known 60 held_db.payment_events ≡ false)
    × (event.type ≡ payment_captured)
    × (b : Booking) × (booking_of_event list_prisma settings event held_db ≡ some b)
    × Pays list_prisma settings drawn event held_db paid_db b
        (auto_confirms list_prisma settings b held_db)
apply_webhook-paid_example = apply_webhook-paid list_prisma settings drawn event held_db was_paid
