-- ===== src/Booking/Lists.antt =====
-- The lists of bookings, of booking.repository.ts and booking.service.ts, without their order and the
-- shape that is shown.
use rookopg.Prelude.{ℕ, Bool, true, false, ◌&&◌, List, ◌==◌}
use rookopg.Errors.{hide_forbidden, record_missing}
use rookopg.Iam.{AuthenticatedActor, assert_property_access}
use rookopg.Database.{Booking, BookingStatus, pending_approval, confirmed, Property, Db}
use rookopg.Database.Client.{Prisma}
use rookopg.Database.Session.{Session, ◌>>=◌, ◌>>◌, lift, reads, require_some}
use rookopg.Booking.Service.{owner_roles}

abbrev pub awaits_owner : BookingStatus → Bool
awaits_owner pending_approval = true
awaits_owner confirmed = true
awaits_owner _ = false

module _ (prisma : Prisma) where
  unfoldable pub list_for_tenant : ℕ → Db → List Booking
  list_for_tenant tenant_user_id db =
      prisma.find_many Booking (λ b. b.tenant_user_id == tenant_user_id) db.bookings

  unfoldable pub bookings_at : ℕ → (BookingStatus → Bool) → Db → List Booking
  bookings_at property_id wanted db =
      prisma.find_many Booking (λ b. (b.property_id == property_id) && wanted b.status) db.bookings

  unfoldable pub list_mine : AuthenticatedActor → Session (List Booking)
  list_mine actor = reads (list_for_tenant actor.user_id)

  -- The property's organisation is looked up for the access check.
  unfoldable pub list_bookings : AuthenticatedActor → ℕ → Session (List Booking)
  list_bookings actor property_id = do
    found ← reads (λ db. prisma.find_first Property (λ p. p.id == property_id) db.properties)
    property ← require_some found record_missing
    lift (
        hide_forbidden "Booking"
          (assert_property_access actor property.org_id property_id owner_roles))
    reads (bookings_at property_id awaits_owner)
