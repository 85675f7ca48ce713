-- ===== src/Mesh/Exchange/Publications.antt =====
-- What `publish` of crates/nostr-pubsub/src/mesh.rs and `publish_verified` of mesh_verified.rs promise.
use nostr_pubsub.Prelude.{ℕ, sat_add_64}
use nostr_pubsub.Prelude.Map.{text_key}
use nostr_pubsub.Mesh.Types.{NostrEvent, MeshOptions}
use nostr_pubsub.Mesh.Cache.{CachedEvent}
use nostr_pubsub.Mesh.State.{Mesh}

module _ {E : Type 0} ⦃nostr : NostrEvent E⦄ where
  abbrev stored_with : E → ℕ → ℕ → MeshOptions → CachedEvent E
  stored_with e bytes now o = record {
    event = e;
    expires_at_ms = sat_add_64 now o.event_ttl_ms;
    payload_bytes = bytes;
  }

  abbrev stored : E → ℕ → ℕ → Mesh E → CachedEvent E
  stored e bytes now m = stored_with e bytes now m.options
