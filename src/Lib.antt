-- ===== src/Lib.antt =====
-- A model of the state machines of nostr-pubsub, a Nostr publish/subscribe library in Rust, with the
-- theorems that make them correct.
--
-- The program. Peers exchange signed events by inventory, want and frame: a peer announces an event
-- that it has, is asked for it, and sends it. The mesh of crates/nostr-pubsub decides on each message
-- what to send and what to deliver, within fixed memory. Beside it the same crate keeps the filters
-- that peers subscribed to, which a wire adapter fills from their frames; pages through a source's
-- history; keeps events for an application; remembers verified signatures; and sends queries and
-- publications over routes to several sources. The client of crates/nostr-pubsub-fips drives these
-- over a transport, with windows of recent events and of seen ids, and a table of the requests that it
-- waits for. The session of crates/nostr-pubsub-reconcile finds out which events two sides lack.
--
-- The files.
-- - Prelude: Boolean tests, lists over native numbers, sorting (Prelude/Sort), machine words, 32-bit
--   integers (Prelude/Int), and maps (Prelude/Map) as association lists in key order, with their sizes
--   (Prelude/Map/Size) and with a queue of the keys beside them (Prelude/Map/Queue). A `HashMap`, whose
--   iteration order is not specified, is read in this order too.
-- - Mesh: crates/nostr-pubsub/src/mesh.rs with its children mesh_resources.rs and mesh_verified.rs. Types
--   has the messages, options, routes and errors; Cache the cached events (`store_event`,
--   `prune_cached_events`); Behavior the peer scores (`record_peer_behavior`); Select
--   `select_mesh_peers`; State the record `Mesh`, which is the struct `InvWantMesh` with its fields in
--   groups, `new`, validation and the two windows; Prune `prune`; Receive the handlers of messages;
--   Publish the local entry points; Run all public calls and histories of them. Invariant holds what
--   every call preserves, and Exchange what holds of a whole exchange.
-- - Subscriptions: crates/nostr-pubsub/src/subscriptions.rs. Types, Sets (`PeerSubscriptionSet`), Store
--   (`PubsubPeerSubscriptionStore`), Delivery (the reads and the policy); Accounts measures the
--   snapshot, and Invariant holds what the operations preserve.
-- - Wire: crates/nostr-pubsub/src/wire.rs. Types has `FipsPubsubWireMessage`, Codec
--   `FipsPubsubWireCodec`, Adapter `FipsPubsubWireAdapter` over the store of Subscriptions; Roundtrip
--   is about one frame, Inbound about frames of any bytes.
-- - Pagination: crates/nostr-pubsub/src/pagination.rs. Cursor is `HistoryCursor`.
-- - Retained: crates/nostr-pubsub/src/retained.rs, with `EventRetentionPolicy` of lib.rs. Order and
--   Invariant are about what is kept, Query about `query`.
-- - Verification: `EventVerificationCache` of crates/nostr-pubsub/src/lib.rs.
-- - Routes: crates/nostr-pubsub/src/routes.rs, and `publish_to_routes` of router.rs (Router). Types has
--   the routes and reports of lib.rs, Merge `merge_routed_events`, Query `query_routes_with_policy`;
--   Groups is about the replicas of a dataset, Datasets about the answer over datasets.
-- - Live: crates/nostr-pubsub/src/live_routes.rs. Window is about the events that are passed on,
--   Opening about the subscriptions that are opened and closed, Status about what is reported.
-- - Fips/Recent, Fips/Pending and Fips/Seen: `RecentEvents`, `PendingWants` and `ScopedSeenIds` of
--   crates/nostr-pubsub-fips/src/recent_events.rs, pending_wants.rs and seen_ids.rs. Fips/Seen has the
--   windows, the counts, the eviction over all windows and the abstract memory that they refine.
-- - Reconcile: Frames is crates/nostr-pubsub-reconcile/src/validation.rs, the check of untrusted
--   frames, and Session the `Session` of lib.rs, which calls it before the engine reads a frame.
--
-- Conventions. A method takes its state last and returns the new state first. Errors are values, one
-- constructor for each message or kind of message; a handler that fails returns its state too, since the
-- source keeps what it changed before. Times are arguments. Sums saturate at 64 or 32 bits where the
-- source saturates; `usize` is taken as 64 bits wide. A set is a map to the unit type. Reads that the
-- source runs concurrently are made in turn, since their results are put in order before they are used.
--
-- Fuel. A loop over a queue is recursion on the queue. The loop over the ranges of a frame has the
-- frame's length as fuel, since each range takes a byte at least; out of fuel is an outcome of its own,
-- which never comes. The loop that sheds retained events takes one event away in each round, and has
-- their number as fuel. A varint has at most ten bytes, as in the source.
--
-- Parameters. Of the nostr crate, the id, kind, check and JSON length of events (`NostrEvent`; the
-- check includes that the id is the hash of the event, so that it fixes the JSON length of an event
-- that passes it, and of no other), the matching of filters (`FilterMatch`, `HistoryEvent`), the JSON lengths of filters (`FilterJson`), the
-- parser of ids (`EventIds`) and the messages of a relay are parameters, and so are the JSON values of
-- serde_json, which are read back as they were written, the hash and the signature scheme, of which an
-- id has one author, the engine of the reconciliation and its storage, which are copies of the
-- negentropy library, and the sources, publishers and policies that an application provides.
--
-- Not modelled: the mesh's own codec and the inventory codec, which are JSON through serde; most of
-- the constructors of routes, and the router's lists of sources; the memory store, and the file
-- store, which adds the file system to the retained events; the transport, the reputation and the
-- roles of the FIPS client; the relay; the social graph, whose scores come from another crate; the
-- simulator; and the TypeScript port. A panic of `expect` is modelled as a default value where the
-- invariant rules it out.
pub mod Prelude
pub mod Mesh
pub mod Subscriptions
pub mod Pagination
pub mod Fips
pub mod Reconcile
pub mod Wire
pub mod Retained
pub mod Verification
pub mod Routes
pub mod Live
