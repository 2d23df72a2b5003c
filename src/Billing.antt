-- ===== src/Billing.antt =====
-- apps/backend/src/modules/billing: rent invoices, payments and what is owed.
pub mod Repository
pub mod Service
pub mod Loop
pub mod Amounts
pub mod Ledger
pub mod Total
pub mod Rights
pub mod Dues
pub mod Cycle
