-- ===== src/Tests.antt =====
-- Runs of the code on concrete values, and the theorems at them.
mod Sample
mod Posts
mod Comments
mod Identity
mod Logout
mod Messaging
mod RelayLoop
mod Reading
mod Caching
mod Access
mod Publisher
mod Consumer
mod Lockout
mod AccessTokens
mod Columns
mod Middleware
mod Database
mod Activity
mod Submission
mod Limited
mod Password
mod Seed
mod Problems
