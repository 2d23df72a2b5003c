-- ===== src/Booking.antt =====
-- apps/backend/src/modules/booking: the repository's transactions and the service's operations.
pub mod Repository
pub mod Claims
pub mod Reachable
pub mod Release
pub mod Confirm
pub mod Webhook
pub mod Sessions
pub mod Rights
pub mod Service
pub mod Lists
pub mod Checkout
pub mod Expiry
