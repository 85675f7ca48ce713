-- ===== src/Mesh/State.antt =====
-- The state of `InvWantMesh` in crates/nostr-pubsub/src/mesh.rs, its constructor, and the small
-- operations that the handlers share. The fields are grouped by what they are about.
use nostr_pubsub.Prelude.{
  ℕ, Bool, true, false, ◌&&◌, ◌||◌, Option, none, some, List, [], ◌∷◌, ◌++◌, map, min,
  if◌then◌else◌, ltb, leb, ◌==◌, length, all, any, sat_add_64, sat_sub, u32_max,
}
use nostr_pubsub.Prelude.Map.{Text, Map, text_key, get, contains, insert, remove}
use nostr_pubsub.Prelude.Map.Queue.{evict}
use nostr_pubsub.Mesh.Types.{
  NostrEvent, WireMessage, MeshPeer, MeshOptions, adjust_options, Action, send, UpstreamRoute,
  PendingPeers, invalid_event_id, unsupported_kind, event_too_large, invalid_signature,
  invalid_json, Result, ok, err, ◌>>=◌, ◌>>◌,
}
use nostr_pubsub.Mesh.Cache.{CachedEvent, Cache, empty_cache, store}
use nostr_pubsub.Mesh.Behavior.{
  Evidence, Behaviors, empty_behaviors, record_peer_behavior, peers_with_behavior,
  invalid_message_penalty,
}
use nostr_pubsub.Mesh.Select.{select_mesh_peers}

-- `upstream_routes`, `pending_downstream`, `pending_peer_count` and `want_forwarded`.
pub record Routes : Type 0 where
  pub upstream_routes : Map Text UpstreamRoute
  pub pending_downstream : Map Text PendingPeers
  pub pending_peer_count : ℕ
  pub want_forwarded : Map Text ℕ

-- `seen_inventories` and `seen_order`, or `delivered_events` and `delivered_order`.
pub record Window : Type 0 where
  pub expiries : Map Text ℕ
  pub order : List Text

pub record Mesh (E : Type 0) : Type 0 where
  pub options : MeshOptions
  pub cache : Cache E
  pub seen : Window
  pub delivered : Window
  pub routes : Routes
  pub behaviors : Behaviors
  pub next_prune_at_ms : Option ℕ

abbrev empty_routes : Routes
empty_routes = record {
  upstream_routes = [];
  pending_downstream = [];
  pending_peer_count = 0;
  want_forwarded = [];
}

abbrev pub empty_window : Window
empty_window = record { expiries = []; order = [] }

-- `InvWantMesh::new`
unfoldable pub new : {E : Type 0} → MeshOptions → Mesh E
new o = record {
  options = adjust_options o;
  cache = empty_cache;
  seen = empty_window;
  delivered = empty_window;
  routes = empty_routes;
  behaviors = empty_behaviors;
  next_prune_at_ms = none;
}

-- The body of `track_expiry`.
abbrev pub earlier : Option ℕ → ℕ → Option ℕ
earlier none t = some t
earlier (some s) t = some (min s t)

-- `remove_pending_event`
unfoldable pub remove_pending_event : Text → Routes → Routes
remove_pending_event id r = elim (get id r.pending_downstream) [
  | none ↦ r
  | some p ↦ record r {
    pending_downstream = remove id r.pending_downstream;
    pending_peer_count = sat_sub r.pending_peer_count (length p.peers);
  }
]

-- The removals of the loop in `remember_inventory`, after the one from `seen_inventories`.
unfoldable pub forget_event : Text → Routes → Routes
forget_event id r =
    let r' = remove_pending_event id (record r { upstream_routes = remove id r.upstream_routes }) in
    record r' { want_forwarded = remove id r'.want_forwarded }

-- That loop, by recursion on the queue.
unfoldable pub evict_seen : ℕ → List Text → Map Text ℕ → Routes → Window × Routes
evict_seen limit [] m r = (record { expiries = m; order = [] }, r)
evict_seen limit (oldest ∷ q) m r = elim (leb limit (length m)) [
  | false ↦ (record { expiries = m; order = oldest ∷ q }, r)
  | true ↦ evict_seen limit q (remove oldest m) (forget_event oldest r)
]

-- `validate_event_id`
abbrev is_lower_hex : ℕ → Bool
is_lower_hex b = (leb b'0' b && leb b b'9') || (leb b'a' b && leb b b'f')

unfoldable pub is_event_id : Text → Bool
is_event_id id = (length id == 64) && all is_lower_hex id

unfoldable pub validate_event_id : Text → Result (Unit {0})
validate_event_id id = if is_event_id id then ok tt else err (invalid_event_id id)

-- `validate_kind` and `validate_event_len`
unfoldable pub validate_kind : MeshOptions → ℕ → Result (Unit {0})
validate_kind o kind = elim o.allowed_kinds [
  | none ↦ ok tt
  | some allowed ↦ if any (λ k. k == kind) allowed then ok tt else err (unsupported_kind kind)
]

unfoldable pub validate_event_len : MeshOptions → ℕ → Result (Unit {0})
validate_event_len o len = if ltb o.max_event_bytes len then err (event_too_large len) else ok tt

-- `u32::try_from(payload.len())`
unfoldable pub to_u32 : ℕ → Result ℕ
to_u32 len = if ltb u32_max len then err (event_too_large len) else ok len

abbrev json_length : Option ℕ → Result ℕ
json_length none = err invalid_json
json_length (some n) = ok n

module _ {E : Type 0} ⦃nostr : NostrEvent E⦄ where
  unfoldable pub validate_verified_event : MeshOptions → E → Result (Text × ℕ)
  validate_verified_event o e = do
    validate_kind o (nostr.kind e)
    len ← json_length (nostr.json_len e)
    validate_event_len o len
    payload_bytes ← to_u32 len
    ok (nostr.id_hex e, payload_bytes)

  unfoldable pub validate_event : MeshOptions → E → Result (Text × ℕ)
  validate_event o e = if nostr.verify e then validate_verified_event o e else err invalid_signature

  -- `store_event`
  unfoldable pub store_event : E → ℕ → ℕ → Mesh E → Mesh E
  store_event e payload_bytes now m =
      let expires = sat_add_64 now m.options.event_ttl_ms in
      let cached : CachedEvent E = record {
        event = e;
        expires_at_ms = expires;
        payload_bytes = payload_bytes;
      } in
      record m {
        cache = store m.options (nostr.id_hex e) cached m.cache;
        next_prune_at_ms = earlier m.next_prune_at_ms expires;
      }

module _ {E : Type 0} where
  -- `remember_inventory`: the flag tells whether the inventory is new.
  unfoldable pub is_remembered : Text → ℕ → Mesh E → Bool
  is_remembered id now m = elim (get id m.seen.expiries) [ none ↦ false | some t ↦ ltb now t ]

  -- Its middle part: a new id evicts the oldest ones and joins the queue.
  unfoldable pub admit_seen : Text → Mesh E → Mesh E
  admit_seen id m =
      if contains id m.seen.expiries
      then m
      else (let (w, r) =
            evict_seen m.options.max_seen_events m.seen.order m.seen.expiries m.routes in
          record m {
            seen = record { expiries = w.expiries; order = w.order ++ id ∷ [] };
            routes = r;
          })

  unfoldable pub stamp_seen : Text → ℕ → Mesh E → Mesh E
  stamp_seen id expires m = record m {
    seen = record { expiries = insert id expires m.seen.expiries; order = m.seen.order };
    next_prune_at_ms = earlier m.next_prune_at_ms expires;
  }

  unfoldable pub remember_inventory : Text → ℕ → Mesh E → Mesh E × Bool
  remember_inventory id now m =
      if is_remembered id now m
      then (m, false)
      else (stamp_seen id (sat_add_64 now m.options.route_ttl_ms) (admit_seen id m), true)

  -- `remember_delivered`
  unfoldable pub remember_delivered : Text → ℕ → Mesh E → Mesh E × Bool
  remember_delivered id now m =
      if contains id m.delivered.expiries
      then (m, false)
      else (let (q, kept) =
            evict m.options.max_seen_events m.delivered.order m.delivered.expiries in
          let expires = sat_add_64 now m.options.event_ttl_ms in
          (
            record m {
              delivered = record { expiries = insert id expires kept; order = q ++ id ∷ [] };
              next_prune_at_ms = earlier m.next_prune_at_ms expires;
            },
            true,
          ))

  -- `record_invalid_message`
  unfoldable pub record_invalid_message : Text → Mesh E → Mesh E
  record_invalid_message peer m = record m {
    behaviors =
        record_peer_behavior peer invalid_message_penalty Evidence.invalid_message m.behaviors;
  }

  -- `send_to_selected_peers`
  unfoldable pub send_to_selected_peers :
      Mesh E → List MeshPeer → Option Text → WireMessage E → List (Action E)
  send_to_selected_peers m peers excluded message =
      map (λ (p : MeshPeer). send p.id message)
        (select_mesh_peers (peers_with_behavior m.behaviors peers) excluded m.options.fanout
          m.options.unknown_peer_reserve)
