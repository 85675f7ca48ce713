-- ===== src/Mesh/Invariant.antt =====
-- The well-formedness of the mesh of crates/nostr-pubsub/src/mesh.rs.
pub mod Tracking
pub mod Pruned
pub mod Windows
pub mod Steps
pub mod Inventories
pub mod Wants
pub mod Frames
pub mod Entries
use nostr_pubsub.Prelude.{ℕ, ◌+◌, ◌≤◌, ◌<◌, ◌≡◌, Bool, true, false, Option, none, some, length}
use nostr_pubsub.Prelude.Map.{Text, Map, text_key, get, contains, Distinct}
use nostr_pubsub.Prelude.Map.Size.{total}
use nostr_pubsub.Prelude.Map.Queue.{Synced}
use nostr_pubsub.Mesh.Types.{NostrEvent, MeshOptions, AreUsable, UpstreamRoute, PendingPeers}
use nostr_pubsub.Mesh.Cache.{CachedEvent}
use nostr_pubsub.Mesh.Cache.Invariant.{IsBounded}
use nostr_pubsub.Mesh.Behavior.Bounds.{AreTallied}
use nostr_pubsub.Mesh.State.{Routes, Window, Mesh}

-- A time that is recorded, and not before another.
abbrev pub Covers : ℕ → Option ℕ → Type 0
Covers t none = ⊥
Covers t (some s) = t ≤ s

-- One route: at most three providers, all different, and a hop limit within the local maximum.
pub record IsRoute (o : MeshOptions) (r : UpstreamRoute) : Type 0 where
  pub providers_le : length r.alternate_peers ≤ 2
  pub alternates_distinct : Distinct r.alternate_peers
  pub provider_once : contains r.peer_id r.alternate_peers ≡ false
  pub hops_pos : 0 < r.hop_limit
  pub hops_le : r.hop_limit ≤ o.max_hops

abbrev peer_total : Map Text PendingPeers → ℕ
peer_total = total (λ p. length p.peers)

-- Routes, pending peers and forwarded wants live and die with the inventory that was seen.
pub record AreTracked (o : MeshOptions) (seen : Map Text ℕ) (r : Routes) : Type 0 where
  pub routes_distinct : Distinct r.upstream_routes
  pub pending_distinct : Distinct r.pending_downstream
  pub wants_distinct : Distinct r.want_forwarded
  pub route : (id : Text) (u : UpstreamRoute) → get id r.upstream_routes ≡ some u → IsRoute o u
  pub covered :
      (id : Text) (u : UpstreamRoute)
      → get id r.upstream_routes ≡ some u
      → Covers u.expires_at_ms (get id seen)
  pub pending_le :
      (id : Text) (p : PendingPeers)
      → get id r.pending_downstream ≡ some p
      → length p.peers ≤ o.max_pending_peers_per_event
  pub pending_routed :
      (id : Text) → contains id r.pending_downstream ≡ true → contains id r.upstream_routes ≡ true
  pub wants_routed :
      (id : Text) → contains id r.want_forwarded ≡ true → contains id r.upstream_routes ≡ true
  pub pending_count : r.pending_peer_count ≡ peer_total r.pending_downstream

pub record IsWindow (limit : ℕ) (w : Window) : Type 0 where
  pub synced : Synced w.order w.expiries
  pub count_le : length w.expiries ≤ limit

-- Each cached event is verified, and stands under its own id, with the length of its JSON text.
abbrev pub HoldsEvents : {E : Type 0} ⦃nostr : NostrEvent E⦄ → Map Text (CachedEvent E) → Type 0
HoldsEvents {E} ⦃nostr⦄ events =
    (id : Text) (c : CachedEvent E)
    → get id events ≡ some c
    → (nostr.verify c.event ≡ true)
      × (nostr.id_hex c.event ≡ id)
      × (nostr.json_len c.event ≡ some c.payload_bytes)

-- The id of a verified event is the hash of its content, and so commits to the length of its JSON text.
abbrev pub IdFixesLength : {E : Type 0} → NostrEvent E → Type 0
IdFixesLength {E} nostr =
    (a b : E)
    → nostr.verify a ≡ true
    → nostr.verify b ≡ true
    → nostr.id_hex a ≡ nostr.id_hex b
    → nostr.json_len a ≡ nostr.json_len b

pub record IsWellFormed {E : Type 0} ⦃nostr : NostrEvent E⦄ (m : Mesh E) : Type 0 where
  pub usable : AreUsable m.options
  pub cache : IsBounded m.options m.cache
  pub content : HoldsEvents m.cache.cached_events
  pub seen : IsWindow m.options.max_seen_events m.seen
  pub delivered : IsWindow m.options.max_seen_events m.delivered
  pub routes : AreTracked m.options m.seen.expiries m.routes
  pub behaviors : AreTallied m.behaviors
