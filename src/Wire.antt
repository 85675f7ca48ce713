-- ===== src/Wire.antt =====
-- crates/nostr-pubsub/src/wire.rs: the frames of the FIPS transport, and the adapter that keeps the
-- subscriptions of the peers that send them.
pub mod Types
pub mod Codec
pub mod Roundtrip
pub mod Adapter
pub mod Inbound
mod Tests
