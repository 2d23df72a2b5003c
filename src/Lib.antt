-- ===== src/Lib.antt =====
-- The core of a rental platform's backend (apps/backend/src): booking a bed, paying for it, moving in,
-- and what rent falls due.
--
-- A person signs in by a one-time code and stays signed in by refresh tokens (Auth, modules/auth), under
-- one canonical phone number (Phone, common/crypto/phone.util.ts).
-- An owner's organisation has staff, each with a role and a scope (Staff, modules/staff), and its
-- properties have rooms and beds (Inventory, modules/inventory).
-- A tenant holds a bed that the search found free (Booking, modules/booking). The hold is a claim on the
-- bed in the database (Database, prisma/schema.prisma), which an exclusion constraint keeps apart from
-- other claims. The payment gateway (Payments, modules/payments) reports the payment by a webhook, which marks the
-- booking as paid: it is confirmed at once or waits for the owner, whose rights Iam (modules/iam)
-- checks. A confirmed booking has a tenancy and a move-in pass; staff redeem the pass on arrival and
-- the owner's share is released, and an hourly job settles what was left (Checkin, modules/checkin).
-- Staff may also seat a walk-in, take notice and check a tenant out (Tenancy, modules/tenancy), on the
-- same claims. Every period of a tenancy is invoiced once, and payments are allocated to the invoices
-- (Billing, modules/billing).
-- RentCycle (modules/billing/rent-cycle.ts) says which rent periods a tenancy is billed for, Pricing
-- (modules/booking/booking.pricing.ts) what a booking costs and who gets what, BedLabels
-- (modules/inventory/bed-labels.ts) how beds and rooms are named.
--
-- - Prelude: library names, Boolean tests, lists and signed integers over the native numbers.
-- - Calendar, Rounding: JavaScript's Date in UTC, as milliseconds since 1970, and Math.round.
-- - Errors: common/errors/domain.error.ts; a function that may throw returns a Result.
-- - Database: the rows (children People, Places, Bookings and Money), the constraint on claims, the client
--   Prisma as a record of calls with the laws that its documentation states (Client), sessions of a
--   service (Session), what sessions keep (Keeps, Claims), and what a unique index keeps (Unique). A
--   repository method that runs a transaction takes the database to a new one or throws; the names are
--   the methods' in snake case (holdBed is hold_bed).
-- - Booking.Repository, Booking.Service: booking.repository.ts and booking.service.ts; the theorems are
--   in Claims, Reachable and Sessions (claims on beds), Confirm, Release, Expiry (the sweep over lapsed
--   bookings), Rights and Webhook.
-- - Booking.Checkout: createBooking of booking.service.ts, candidateBeds of booking.repository.ts and
--   findBySlug of modules/search, with the gateway as a parameter; theorems in Candidates, Booked (with its steps in Steps), Retry, Unlinked and
--   Kept. Booking.Lists: the lists of bookings that a tenant and a property's staff see.
-- - Staff.Repository, Staff.Service: the two files of modules/staff; theorems in Members, Owners, Scope and
--   Unseated.
-- - Checkin.Repository, Checkin.Service, Checkin.NoShow: the three files of the check-in; theorems in
--   Arrival, Lockout and Money.
-- - Tenancy.Repository, Tenancy.Service: tenancy.repository.ts and tenancy.service.ts; theorems in Claims,
--   Occupancy (the calendar of beds that the claims stand for) and Stay.
-- - Billing.Repository, Billing.Service: billing.repository.ts and billing.service.ts, and cycleKeyFor;
--   theorems in Loop, Amounts, Ledger and Total (recordPayment), Cycle (billing again), Dues and Rights. The job
--   of rent-invoicing.job.ts is generate_everywhere and a log line.
-- - Auth.Repository, Auth.Service: auth.repository.ts, auth.service.ts and the issue of token.service.ts;
--   theorems in Challenges and Sessions. The second half of refresh is rotate, on a session as it was
--   read before, so that two requests can be put one into the other.
-- - Payments, Payments.Dev: gateway.types.ts and dev.gateway.ts; theorems in Settlement and Ledger.
-- - Payments.Razorpay: orders, releases and refunds of razorpay.gateway.ts over the service's interface as a
--   record of calls; theorems in Reversals and Retry.
-- - Inventory: planRoom and the first half of bulkCreateRooms, with theorems in Plans; Inventory.Repository and
--   Inventory.Service, the rest of modules/inventory, with theorems in Created, Removal and Board.
-- - RentCycle, Pricing, BedLabels, Iam: one file of the source each, with a child per theorem group.
-- - Tests: a client of the database on lists, and the theorems at concrete inputs.
--
-- Bounds: rentPeriods stops after 600 periods, as the source does, and rent_periods-covers says what
-- holds short of that. The loop of bedLabel gets one round more than the index, which is
-- more than it uses. Dates are not before 1970. Ids, random codes and the time are arguments.
--
-- Not modelled: the services of organisations and of properties, the rules and the queries of listings,
-- media; what Razorpay reports of an order and how its webhooks are signed; access tokens; digests
-- (parameters of Auth); locks and isolation of transactions (each runs alone); controllers, and the web and
-- mobile apps.
pub mod Prelude
pub mod Calendar
pub mod Rounding
pub mod Errors
pub mod Iam
pub mod Pricing
pub mod RentCycle
pub mod BedLabels
pub mod Inventory
pub mod Staff
pub mod Payments
pub mod Database
pub mod Booking
pub mod Checkin
pub mod Billing
pub mod Phone
pub mod Tenancy
pub mod Auth
pub mod Tests
