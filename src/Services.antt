-- ===== src/Services.antt =====
-- How the services follow one another through events: a message of one service, delivered to the
-- consumer of another.
pub mod CommentCount
pub mod PostEvents
pub mod AccessTokens
