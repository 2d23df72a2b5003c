-- ===== src/Booking/Rights.antt =====
-- Who may cancel, approve or reject a booking, and when.
use rookopg.Prelude.{ℕ, ◌≡◌, ◌≢◌, true, some, arith, Option-cases, inl, inr}
use rookopg.Calendar.{Date}
use rookopg.Errors.{ok, throw, not_found, hide_forbidden}
use rookopg.Iam.{AuthenticatedActor, assert_property_access}
use rookopg.Database.{Booking, Db}
use rookopg.Database.Client.{Prisma}
use rookopg.Booking.Repository.{is_pending_approval, find_by_id}
use rookopg.Booking.Service.{
  Settings, Drawn, get_mine, cancel_mine, is_cancellable, load_for_owner, owner_roles,
  approve_booking,
}

module _ (prisma : Prisma) (settings : Settings) where
  -- A cancellation that succeeds is of the tenant's own booking, in a status that allows it.
  cancel_mine_lem :
      (now : Date) (actor : AuthenticatedActor) (booking_id : ℕ) (db : Db) {b : Booking}
      → (cancel_mine prisma settings now actor booking_id db).0 ≡ ok b
      → (found : Booking) × (find_by_id prisma booking_id db ≡ some found)
        × (found.tenant_user_id ≡ actor.user_id)
        × (is_cancellable found.status ≡ true)
  unfolding cancel_mine get_mine
  cancel_mine_lem now actor booking_id db h =
      elim (Option-cases (find_by_id prisma booking_id db)) [
        | inl missing ↦ ground arith
        | inr (found, there) ↦ (found, there, ground arith, ground arith)
      ]

  -- A tenant who asks to cancel someone else's booking learns only that there is none, and nothing
  -- changes.
  cancel_mine_other :
      (now : Date) (actor : AuthenticatedActor) (booking_id : ℕ) (db : Db) (found : Booking)
      → find_by_id prisma booking_id db ≡ some found
      → found.tenant_user_id ≢ actor.user_id
      → cancel_mine prisma settings now actor booking_id db ≡ (throw (not_found "Booking"), db)
  unfolding cancel_mine get_mine
  cancel_mine_other now actor booking_id db found there other = ground arith

  -- An approval that succeeds is of a booking that waited for it, by someone whom the access check
  -- lets act on its property as owner or manager.
  approve_booking_lem :
      (drawn : Drawn) (actor : AuthenticatedActor) (booking_id : ℕ) (db : Db)
      → (approve_booking prisma settings drawn actor booking_id db).0 ≡ ok tt
      → (found : Booking) × (find_by_id prisma booking_id db ≡ some found)
        × (is_pending_approval found.status ≡ true)
        × (assert_property_access actor found.org_id found.property_id owner_roles ≡ ok tt)
  unfolding approve_booking load_for_owner hide_forbidden
  approve_booking_lem drawn actor booking_id db h =
      elim (Option-cases (find_by_id prisma booking_id db)) [
        | inl missing ↦ ground arith
        | inr (found, there) ↦ (found, there, ground arith, ground arith)
      ]
