-- ===== src/Mesh.antt =====
-- The production inventory/want/frame mesh of crates/nostr-pubsub/src/mesh.rs, with its two child
-- modules mesh_resources.rs and mesh_verified.rs.
pub mod Types
pub mod Cache
pub mod Behavior
pub mod Select
pub mod State
pub mod Prune
pub mod Receive
pub mod Publish
pub mod Invariant
pub mod Run
pub mod Exchange
mod Tests
