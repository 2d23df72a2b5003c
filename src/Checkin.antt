-- ===== src/Checkin.antt =====
-- apps/backend/src/modules/checkin: the move-in pass, the arrival and the owner's money.
pub mod Repository
pub mod Service
pub mod NoShow
pub mod Arrival
pub mod Lockout
pub mod Money
