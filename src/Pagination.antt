-- ===== src/Pagination.antt =====
-- crates/nostr-pubsub/src/pagination.rs: the cursor that loads one source's history page by page.
pub mod Cursor
pub mod Invariant
pub mod Calls
pub mod Progress
pub mod Stale
pub mod Coverage
mod Tests
