-- ===== src/Comments.antt =====
-- services/comment-service/app: comments, their moderation, and the projection of the posts.
pub mod Domain
pub mod Repository
pub mod Handlers
pub mod ReadModel
pub mod Api
pub mod Queries
pub mod RateLimiter
