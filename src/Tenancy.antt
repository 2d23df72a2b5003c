-- ===== src/Tenancy.antt =====
-- tenancy.repository.ts and tenancy.service.ts: a tenant's stay, from the seating to the check-out.
pub mod Repository
pub mod Service
pub mod Claims
pub mod Stay
pub mod Occupancy
