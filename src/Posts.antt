-- ===== src/Posts.antt =====
-- services/post-service/app: posts, their categories and their slugs.
pub mod Slug
pub mod Domain
pub mod Repository
pub mod UniqueSlug
pub mod Handlers
pub mod ReadModel
pub mod Queries
pub mod Schemas
pub mod Columns
pub mod Api
