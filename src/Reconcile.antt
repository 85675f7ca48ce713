-- ===== src/Reconcile.antt =====
-- crates/nostr-pubsub-reconcile: the check of untrusted frames, and the bounded session around the
-- Negentropy engine.
pub mod Frames
pub mod Session
mod Tests
