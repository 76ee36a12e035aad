-- ===== src/Identity.antt =====
-- services/identity-service/app: users, their sessions as refresh tokens, and the login throttle.
pub mod Domain
pub mod Repository
pub mod Throttle
pub mod Commands
pub mod Tokens
pub mod Handlers
pub mod Api
