-- ===== src/Web.antt =====
-- libs/py-common/devblog_common/web: who a request comes from, and how an error is answered.
pub mod Security
pub mod Errors
pub mod Guards
pub mod Refusals
pub mod Correlation
pub mod Fields
pub mod Middleware
pub mod Problems
