-- ===== src/Tests.antt =====
-- The theorems at concrete inputs, and a database client on lists.
mod ListClient
mod Samples
mod Booking
mod Webhook
mod Rights
mod Payments
mod Checkin
mod Billing
mod Ledger
mod Tenancy
mod Auth
mod Rooms
mod Razorpay
mod Checkout
mod Staff
mod Inventory
mod Iam
