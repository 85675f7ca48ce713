-- ===== src/Subscriptions.antt =====
-- crates/nostr-pubsub/src/subscriptions.rs: the filters that each peer asked for, within limits,
-- and what is sent to whom.
pub mod Types
pub mod Sets
pub mod Store
pub mod Delivery
pub mod Accounts
pub mod Invariant
mod Tests
