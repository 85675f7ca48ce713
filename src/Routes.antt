-- ===== src/Routes.antt =====
-- crates/nostr-pubsub/src/routes.rs: queries over routes, where those of one dataset stand in for each
-- other and datasets add up; and the publication of crates/nostr-pubsub/src/router.rs.
pub mod Types
pub mod Merge
pub mod Query
pub mod Router
pub mod Groups
pub mod Datasets
mod Tests
