-- ===== src/Mesh/Run.antt =====
-- The mesh of crates/nostr-pubsub/src/mesh.rs seen from outside: every public call, and histories of
-- calls; `retained_state` of mesh_resources.rs.
pub mod Bounds
use nostr_pubsub.Prelude.{ℕ, ◌≤◌, ◌≡◌, Bool, true, ◌||◌, List, [], ◌∷◌, length, u64_max}
use nostr_pubsub.Prelude.Map.{Text, text_key}
use nostr_pubsub.Prelude.Map.Size.{total}
use nostr_pubsub.Mesh.Types.{NostrEvent, WireMessage, MeshPeer}
use nostr_pubsub.Mesh.State.{Mesh, record_invalid_message}
use nostr_pubsub.Mesh.Prune.{maintain}
use nostr_pubsub.Mesh.Receive.{
  receive, receive_verified_frame, dismiss_frame, record_transport_disruption,
}
use nostr_pubsub.Mesh.Publish.{publish, replay_to_peer, seed_verified, replay_cached_to_peer}

-- A public method with its arguments. The flag of the two local entry points tells whether the event
-- is verified, or comes with its proof of verification.
pub data Call (E : Type 0) : Type 0 where
  receives : Text → WireMessage E → List MeshPeer → ℕ → Call E
  receives_verified : Text → Text → E → List MeshPeer → ℕ → Call E
  publishes : Bool → E → List MeshPeer → ℕ → Call E
  replays : Bool → E → Text → ℕ → Call E
  seeds : E → ℕ → Call E
  replays_cached : Text → ℕ → Call E
  maintains : ℕ → Call E
  dismisses disrupts : Text → Text → Call E
  blames : Text → Call E

-- The clock value of a call.
abbrev pub time_of : {E : Type 0} → Call E → ℕ
time_of (receives _ _ _ now) = now
time_of (receives_verified _ _ _ _ now) = now
time_of (publishes _ _ _ now) = now
time_of (replays _ _ _ now) = now
time_of (seeds _ now) = now
time_of (replays_cached _ now) = now
time_of (maintains now) = now
time_of (dismisses _ _) = 0
time_of (disrupts _ _) = 0
time_of (blames _) = 0

module _ {E : Type 0} ⦃nostr : NostrEvent E⦄ where
  -- Whether the event of a call that takes a `VerifiedEvent` is verified, as this type promises.
  abbrev pub is_proven : Call E → Bool
  is_proven (receives _ _ _ _) = true
  is_proven (receives_verified _ _ e _ _) = nostr.verify e
  is_proven (publishes verify e _ _) = verify || nostr.verify e
  is_proven (replays verify e _ _) = verify || nostr.verify e
  is_proven (seeds e _) = nostr.verify e
  is_proven (replays_cached _ _) = true
  is_proven (maintains _) = true
  is_proven (dismisses _ _) = true
  is_proven (disrupts _ _) = true
  is_proven (blames _) = true

  -- The state after a call.
  unfoldable pub step : Call E → Mesh E → Mesh E
  step (receives source message peers now) m = (receive source message peers now m).0
  step (receives_verified source id e peers now) m =
      (receive_verified_frame source id e peers now m).0
  step (publishes verify e peers now) m = (publish verify e peers now m).0
  step (replays verify e peer now) m = (replay_to_peer verify e peer now m).0
  step (seeds e now) m = (seed_verified e now m).0
  step (replays_cached peer now) m = (replay_cached_to_peer peer now m).0
  step (maintains now) m = maintain now m
  step (dismisses peer id) m = dismiss_frame peer id m
  step (disrupts peer id) m = (record_transport_disruption peer id m).0
  step (blames peer) m = record_invalid_message peer m

  unfoldable pub run : List (Call E) → Mesh E → Mesh E
  run [] m = m
  run (c ∷ cs) m = run cs (step c m)

pub record RetainedState : Type 0 where
  pub cached_events : ℕ
  pub cached_event_bytes : ℕ
  pub seen_inventories : ℕ
  pub delivered_events : ℕ
  pub upstream_routes : ℕ
  pub transport_disrupted_route_peers : ℕ
  pub pending_events : ℕ
  pub pending_peers : ℕ
  pub forwarded_wants : ℕ
  pub peer_behaviors : ℕ

unfoldable pub retained_state : {E : Type 0} → Mesh E → RetainedState
retained_state m = record {
  cached_events = length m.cache.cached_events;
  cached_event_bytes = m.cache.cached_event_bytes;
  seen_inventories = length m.seen.expiries;
  delivered_events = length m.delivered.expiries;
  upstream_routes = length m.routes.upstream_routes;
  transport_disrupted_route_peers =
      total (λ r. length r.transport_disrupted_peers) m.routes.upstream_routes;
  pending_events = length m.routes.pending_downstream;
  pending_peers = m.routes.pending_peer_count;
  forwarded_wants = length m.routes.want_forwarded;
  peer_behaviors = length m.behaviors.peer_behaviors;
}
