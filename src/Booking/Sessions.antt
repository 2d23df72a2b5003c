-- ===== src/Booking/Sessions.antt =====
-- The operations of booking.service.ts: what they keep, and who may make them.
use Prim.Native.String.{String}
use rookopg.Prelude.{
  ℕ, refl, Bool, true, false, not, Option, some, none, List, [], ◌∷◌, if◌then◌else◌,
}
use rookopg.Calendar.{Date}
use rookopg.Errors.{Result}
use rookopg.Iam.{AuthenticatedActor}
use rookopg.Database.{Booking, BookingStatus, Db}
use rookopg.Database.Client.{Prisma}
use rookopg.Database.Claims.{Disjoint}
use rookopg.Database.Session.{transact, writes}
use rookopg.Database.Keeps.{
  Keeps, transact-Keeps, pure-Keeps, lift-Keeps, reads-Keeps, require_s-Keeps, require_some-Keeps,
  if-Keeps, >>=-Keeps,
}
use rookopg.Booking.Repository.{
  PaidInput, NewPass, mark_paid, approve, release_booking, mark_event_processed, record_event_once,
}
use rookopg.Booking.Claims.{
  mark_paid-Disjoint, approve-Disjoint, release_booking-Disjoint, mark_event_processed-Disjoint,
  record_event_once-Disjoint,
}
use rookopg.Booking.Service.{
  Settings, Drawn, VerifiedEvent, EventType, payment_captured, payment_failed_event, other,
  apply_webhook, apply_fresh, apply_captured, apply_failed, booking_of_event, auto_confirms?, id_of,
  get_mine, cancel_mine, load_for_owner, approve_booking, reject_booking, expire_each,
  expire_lapsed,
}

-- No two active claims on a bed overlap.
abbrev pub Apart : Db → Type 0
Apart db = Disjoint db.allocations

Apart-if :
    {A : Type 0} (b : Bool) (x y : Result A × Db)
    → Apart x.1
    → Apart y.1
    → Apart (if b then x else y).1
Apart-if true x y h k = h
Apart-if false x y h k = k

module _ (prisma : Prisma) (settings : Settings) where
  paid-Apart :
      (now : Date) (input : PaidInput) → Keeps Apart (transact (mark_paid prisma now input))
  paid-Apart now input =
      transact-Keeps Apart (mark_paid prisma now input)
        λ db db' h ran. mark_paid-Disjoint prisma now input db h ran

  approved-Apart :
      (now : Date) (booking_id actor_id : ℕ) (pass : NewPass)
      → Keeps Apart (transact (approve prisma now booking_id actor_id pass))
  approved-Apart now booking_id actor_id pass =
      transact-Keeps Apart (approve prisma now booking_id actor_id pass)
        λ db db' h ran. approve-Disjoint prisma now booking_id actor_id pass db h ran

  released-Apart :
      (now : Date) (booking_id : ℕ) (from to : BookingStatus) (reason : String) (actor : Option ℕ)
      → Keeps Apart (transact (release_booking prisma now booking_id from to reason actor))
  released-Apart now booking_id from to reason actor =
      transact-Keeps Apart (release_booking prisma now booking_id from to reason actor)
        λ db db' h ran. release_booking-Disjoint prisma now booking_id from to reason actor db h ran

  marked-Apart :
      (now : Date) (event_id : ℕ) (result : String)
      → Keeps Apart (writes (mark_event_processed prisma now event_id result))
  marked-Apart now event_id result db h =
      mark_event_processed-Disjoint prisma now event_id result db h refl

  ruleset apart_rules = (
    >>=-Keeps, if-Keeps, pure-Keeps, lift-Keeps, reads-Keeps, require_s-Keeps, require_some-Keeps,
    paid-Apart, approved-Apart, released-Apart, marked-Apart,
  )

  apply_fresh-Apart :
      (drawn : Drawn) (event : VerifiedEvent) (booking : Option Booking) (auto_confirm : Bool)
      (type : EventType)
      → Keeps Apart (apply_fresh prisma settings drawn event booking auto_confirm type)
  unfolding apply_fresh apply_failed apply_captured
  apply_fresh-Apart drawn event none auto_confirm type = search apart_rules
  apply_fresh-Apart drawn event (some b) auto_confirm payment_failed_event = search apart_rules
  apply_fresh-Apart drawn event (some b) auto_confirm other = search apart_rules
  apply_fresh-Apart drawn event (some b) auto_confirm payment_captured = search apart_rules

  apply_webhook-Apart :
      (drawn : Drawn) (event : VerifiedEvent)
      → Keeps Apart (apply_webhook prisma settings drawn event)
  unfolding apply_webhook
  apply_webhook-Apart drawn event db h =
      let booking = booking_of_event prisma settings event db in
      let recorded = record_event_once prisma event.event_id (id_of prisma settings booking) db in
      let kept =
        record_event_once-Disjoint prisma event.event_id (id_of prisma settings booking) db h
          refl in
      Apart-if (not recorded.0) _ _ kept (
        apply_fresh-Apart drawn event booking (auto_confirms? prisma settings booking db) event.type
          recorded.1 kept)

  expire_each-Apart :
      (now : Date) (lapsed : List Booking) (holds approvals : ℕ)
      → Keeps Apart (expire_each prisma settings now lapsed holds approvals)
  unfolding expire_each
  expire_each-Apart now [] holds approvals = λ db h. h
  expire_each-Apart now (b ∷ rest) holds approvals =
      let after = expire_each-Apart now rest in search (apart_rules, after)

  get_mine-Apart :
      (actor : AuthenticatedActor) (booking_id : ℕ)
      → Keeps Apart (get_mine prisma settings actor booking_id)
  unfolding get_mine
  get_mine-Apart actor booking_id db h = require_some-Keeps Apart _ _ db h

  load_for_owner-Apart :
      (actor : AuthenticatedActor) (booking_id : ℕ)
      → Keeps Apart (load_for_owner prisma settings actor booking_id)
  unfolding load_for_owner
  load_for_owner-Apart actor booking_id = search apart_rules

  cancel_mine-Apart :
      (now : Date) (actor : AuthenticatedActor) (booking_id : ℕ)
      → Keeps Apart (cancel_mine prisma settings now actor booking_id)
  unfolding cancel_mine
  cancel_mine-Apart now actor booking_id =
      let mine = get_mine-Apart actor booking_id in search (apart_rules, mine)

  approve_booking-Apart :
      (drawn : Drawn) (actor : AuthenticatedActor) (booking_id : ℕ)
      → Keeps Apart (approve_booking prisma settings drawn actor booking_id)
  unfolding approve_booking
  approve_booking-Apart drawn actor booking_id =
      let loaded = load_for_owner-Apart actor booking_id in search (apart_rules, loaded)

  reject_booking-Apart :
      (now : Date) (actor : AuthenticatedActor) (booking_id : ℕ) (reason : Option String)
      → Keeps Apart (reject_booking prisma settings now actor booking_id reason)
  unfolding reject_booking
  reject_booking-Apart now actor booking_id reason =
      let loaded = load_for_owner-Apart actor booking_id in search (apart_rules, loaded)

  expire_lapsed-Apart : (now : Date) → Keeps Apart (expire_lapsed prisma settings now)
  unfolding expire_lapsed
  expire_lapsed-Apart now = let each = expire_each-Apart now in search (apart_rules, each)

  -- A webhook, a tenant's cancellation, an owner's approval or rejection and the expiry of lapsed
  -- bookings each keep active claims on a bed from overlapping, also where they throw.
  services-Disjoint :
      (drawn : Drawn) (event : VerifiedEvent) (actor : AuthenticatedActor) (booking_id : ℕ)
      (reason : Option String) (db : Db)
      → Disjoint db.allocations
      → Disjoint (apply_webhook prisma settings drawn event db).1.allocations
        × Disjoint (cancel_mine prisma settings drawn.now actor booking_id db).1.allocations
        × Disjoint (approve_booking prisma settings drawn actor booking_id db).1.allocations
        × Disjoint
            (reject_booking prisma settings drawn.now actor booking_id reason db).1.allocations
        × Disjoint (expire_lapsed prisma settings drawn.now db).1.allocations
  services-Disjoint drawn event actor booking_id reason db h = (
    apply_webhook-Apart drawn event db h,
    cancel_mine-Apart drawn.now actor booking_id db h,
    approve_booking-Apart drawn actor booking_id db h,
    reject_booking-Apart drawn.now actor booking_id reason db h,
    expire_lapsed-Apart drawn.now db h,
  )
