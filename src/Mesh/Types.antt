-- ===== src/Mesh/Types.antt =====
-- The types of crates/nostr-pubsub/src/mesh.rs: wire messages, peers, options, actions, routes and
-- errors. Identifiers are byte strings; times are milliseconds.
use nostr_pubsub.Prelude.{
  ℕ, ◌*◌, ◌≤◌, ◌<◌, ◌≡◌, refl, ◌⊎◌, inl, inr, Bool, Option, none, some, List, max, min, u64_max,
}
use nostr_pubsub.Prelude.Map.{Text, Map, text_key}
use nostr_pubsub.Prelude.Int.{ℤ, pos}

-- What the mesh asks of the nostr crate's `Event`: the hexadecimal id, the kind, the check of id and
-- signature, and the length of the JSON text, if the event serialises.
pub record NostrEvent (E : Type 0) : Type 0 where
  pub id_hex : E → Text
  pub kind : E → ℕ
  pub verify : E → Bool
  pub json_len : E → Option ℕ

-- An ordered set of identifiers.
abbrev TextSet : Type 0
TextSet = Map Text (Unit {0})

pub data WireMessage (E : Type 0) : Type 0 where
  inventory : Text → ℕ → ℕ → ℕ → WireMessage E
  want : Text → WireMessage E
  frame : Text → E → WireMessage E

pub record MeshPeer : Type 0 where
  pub id : Text
  pub quality_score : Option ℤ

abbrev pub is_unknown : MeshPeer → Bool
is_unknown p = elim p.quality_score [ none ↦ Bool.true | some s ↦ Bool.false ]

abbrev pub effective_score : MeshPeer → ℤ
effective_score p = elim p.quality_score [ none ↦ pos 0 | some s ↦ s ]

pub record MeshOptions : Type 0 where
  pub fanout : ℕ
  pub unknown_peer_reserve : ℕ
  pub max_hops : ℕ
  pub max_event_bytes : ℕ
  pub max_cached_events : ℕ
  pub max_cached_event_bytes : ℕ
  pub max_seen_events : ℕ
  pub max_pending_peers_per_event : ℕ
  pub route_ttl_ms : ℕ
  pub event_ttl_ms : ℕ
  pub allowed_kinds : Option (List ℕ)

abbrev pub default_options : MeshOptions
default_options = record {
  fanout = 8;
  unknown_peer_reserve = 1;
  max_hops = 16;
  max_event_bytes = 1048576;
  max_cached_events = 1024;
  max_cached_event_bytes = 16777216;
  max_seen_events = 4096;
  max_pending_peers_per_event = 64;
  route_ttl_ms = 120000;
  event_ttl_ms = 600000;
  allowed_kinds = none;
}

-- The adjustments at the head of `InvWantMesh::new`, in the source's order.
unfoldable pub adjust_options : MeshOptions → MeshOptions
adjust_options o = record {
  fanout = max o.fanout 1;
  unknown_peer_reserve = min o.unknown_peer_reserve (max o.fanout 1);
  max_hops = max o.max_hops 1;
  max_event_bytes = max o.max_event_bytes 1;
  max_cached_events = max o.max_cached_events 1;
  max_cached_event_bytes = max o.max_cached_event_bytes (max o.max_event_bytes 1);
  max_seen_events = max o.max_seen_events 1;
  max_pending_peers_per_event = max o.max_pending_peers_per_event 1;
  route_ttl_ms = max o.route_ttl_ms 1;
  event_ttl_ms = max o.event_ttl_ms (max o.route_ttl_ms 1);
  allowed_kinds = o.allowed_kinds;
}

-- What `InvWantMesh::new` establishes, with limits that fit their machine words.
pub record AreUsable (o : MeshOptions) : Type 0 where
  pub fanout_pos : 0 < o.fanout
  pub reserve_le : o.unknown_peer_reserve ≤ o.fanout
  pub hops_pos : 0 < o.max_hops
  pub event_pos : 0 < o.max_event_bytes
  pub cached_pos : 0 < o.max_cached_events
  pub event_fits : o.max_event_bytes ≤ o.max_cached_event_bytes
  pub cache_fits : o.max_cached_event_bytes < u64_max
  pub seen_pos : 0 < o.max_seen_events
  pub pending_pos : 0 < o.max_pending_peers_per_event
  pub route_pos : 0 < o.route_ttl_ms
  pub pending_fits : o.max_seen_events * o.max_pending_peers_per_event < u64_max
  pub ttl_le : o.route_ttl_ms ≤ o.event_ttl_ms

pub data Action (E : Type 0) : Type 0 where
  send : Text → WireMessage E → Action E
  deliver : Text → E → Action E

pub record UpstreamRoute : Type 0 where
  pub peer_id : Text
  pub alternate_peers : TextSet
  pub transport_disrupted_peers : TextSet
  pub event_kind : ℕ
  pub payload_bytes : ℕ
  pub hop_limit : ℕ
  pub expires_at_ms : ℕ
  pub fulfilled : Bool

pub record PendingPeers : Type 0 where
  pub peers : TextSet
  pub expires_at_ms : ℕ

-- The `PubsubError::Validation` messages of mesh.rs, one constructor for each.
pub data MeshError : Type 0 where
  invalid_event_id : Text → MeshError
  unsupported_kind event_too_large hop_limit_exceeded : ℕ → MeshError
  invalid_signature invalid_json changed_inventory unsolicited_frame unrequested_frame : MeshError
  wrong_frame_id wrong_frame_shape : MeshError

pub data Result {ℓ} (A : Type ℓ) : Type ℓ where
  ok : A → Result A
  err : MeshError → Result A

-- `?` on a result, and on one that carries nothing.
infixl 5 ◌>>=◌ ◌>>◌
abbrev pub ◌>>=◌ {ℓ κ} : {V : Type ℓ} {W : Type κ} → Result V → (V → Result W) → Result W
err x >>= next = err x
ok v >>= next = next v

abbrev pub ◌>>◌ {κ} : {W : Type κ} → Result (Unit {0}) → Result W → Result W
err x >> next = err x
ok _ >> next = next

pub Result-cases {ℓ} :
    {A : Type ℓ} (r : Result A) → ((a : A) × (r ≡ ok a)) ⊎ ((x : MeshError) × (r ≡ err x))
Result-cases (ok a) = inl (a, refl)
Result-cases (err x) = inr (x, refl)
