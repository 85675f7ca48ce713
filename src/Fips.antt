-- ===== src/Fips.antt =====
-- Parts of crates/nostr-pubsub-fips: the events that a client saw recently, and the requests that
-- it waits for.
pub mod Recent
pub mod Pending
pub mod Seen
mod Tests
