-- ===== src/Mesh/Exchange.antt =====
-- What an exchange of messages achieves, over the handlers of crates/nostr-pubsub/src/mesh.rs.
pub mod Pruned
pub mod Frames
pub mod Openings
pub mod Wants
pub mod Errors
pub mod Hops
pub mod Publications
