-- ===== src/Mesh/Cache.antt =====
-- The bounded event cache of crates/nostr-pubsub/src/mesh_resources.rs: `store_event`,
-- `evict_oldest_cached_event` and `prune_cached_events`.
pub mod Invariant
use nostr_pubsub.Prelude.{
  ℕ, ◌+◌, ◌-◌, ◌≡◌, Bool, true, false, ◌||◌, Option, none, some, List, [], ◌∷◌, ◌++◌, length, keep,
  if◌then◌else◌, ltb, leb, sat_add_64, sat_sub,
}
use nostr_pubsub.Prelude.Map.{Text, Map, text_key, get, contains, insert, remove, retain}
use nostr_pubsub.Mesh.Types.{MeshOptions, NostrEvent}

pub record CachedEvent (E : Type 0) : Type 0 where
  pub event : E
  pub expires_at_ms : ℕ
  pub payload_bytes : ℕ

pub record Cache (E : Type 0) : Type 0 where
  pub cached_events : Map Text (CachedEvent E)
  pub cache_order : List Text
  pub cached_event_bytes : ℕ

abbrev pub empty_cache : {E : Type 0} → Cache E
empty_cache = record { cached_events = []; cache_order = []; cached_event_bytes = 0 }

module _ {E : Type 0} where
  -- The condition of the loop in `store_event`.
  abbrev pub is_full : MeshOptions → ℕ → Map Text (CachedEvent E) → ℕ → Bool
  is_full o payload events bytes =
      leb o.max_cached_events (length events)
      || ltb o.max_cached_event_bytes (sat_add_64 bytes payload)

  -- The loop of `store_event` with `evict_oldest_cached_event` inside it, by recursion on the queue:
  -- a queued id that is no longer cached is skipped, and an empty queue ends the loop.
  unfoldable pub make_room : MeshOptions → ℕ → List Text → Map Text (CachedEvent E) → ℕ → Cache E
  make_room o payload [] events bytes = record {
    cached_events = events;
    cache_order = [];
    cached_event_bytes = bytes;
  }
  make_room o payload (oldest ∷ order) events bytes = elim (is_full o payload events bytes) [
    | false ↦ record {
      cached_events = events;
      cache_order = oldest ∷ order;
      cached_event_bytes = bytes;
    }
    | true ↦ elim (get oldest events) [
      | none ↦ make_room o payload order events bytes
      | some c ↦ make_room o payload order (remove oldest events) (sat_sub bytes c.payload_bytes)
    ]
  ]

  -- The end of `store_event`, once there is room.
  append_event : Text → CachedEvent E → Cache E → Cache E
  append_event event_id c k = record {
    cached_events = insert event_id c k.cached_events;
    cache_order = k.cache_order ++ event_id ∷ [];
    cached_event_bytes = sat_add_64 k.cached_event_bytes c.payload_bytes;
  }

  -- `store_event`, without `track_expiry`, which its caller makes.
  unfoldable pub store : MeshOptions → Text → CachedEvent E → Cache E → Cache E
  unfolding append_event
  store o event_id c k = elim (get event_id k.cached_events) [
    | some old ↦ record k {
      cached_events = insert event_id c k.cached_events;
      cached_event_bytes =
          sat_add_64 (sat_sub k.cached_event_bytes old.payload_bytes) c.payload_bytes;
    }
    | none ↦
        append_event event_id c
          (make_room o c.payload_bytes k.cache_order k.cached_events k.cached_event_bytes)
  ]

  -- The fold of `prune_cached_events` over the remaining values.
  unfoldable pub sum_payloads : ℕ → Map Text (CachedEvent E) → ℕ
  sum_payloads acc [] = acc
  sum_payloads acc ((_, c) ∷ m) = sum_payloads (sat_add_64 acc c.payload_bytes) m

  unfoldable pub prune_cache : ℕ → Cache E → Cache E
  prune_cache now k =
      let events = retain (λ _ c. ltb now c.expires_at_ms) k.cached_events in
      record {
        cached_events = events;
        cache_order = keep (λ id. contains id events) k.cache_order;
        cached_event_bytes = sum_payloads 0 events;
      }
