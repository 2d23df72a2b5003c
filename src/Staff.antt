-- ===== src/Staff.antt =====
-- apps/backend/src/modules/staff: who works for an organisation, and on which of its properties.
pub mod Repository
pub mod Service
pub mod Members
pub mod Owners
pub mod Scope
pub mod Unseated
