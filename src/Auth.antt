-- ===== src/Auth.antt =====
-- The sign-in by one-time code and the rotation of refresh tokens (auth.repository.ts,
-- auth.service.ts, token.service.ts).
pub mod Repository
pub mod Service
pub mod Challenges
pub mod Sessions
